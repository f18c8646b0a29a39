-- ===== src/Connector.antt =====
-- core/connector.c: the sandbox's native endpoint connector, a child for each of its parts.
pub mod Bpf
pub mod Filter
pub mod Address
pub mod Table
pub mod Request
pub mod Serve
pub mod Hold
pub mod Tests
