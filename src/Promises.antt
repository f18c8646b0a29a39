-- ===== src/Promises.antt =====
-- core/promises.c: the filter that holds a process to what it promised.
pub mod Calls
pub mod Rules
pub mod Block
pub mod Tree
pub mod Program
pub mod Handler
pub mod Tests
