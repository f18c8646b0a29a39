-- ===== src/Lib.antt =====
-- cosmic: the C core of the program, as far as it is modelled here.
--
-- The core binds system libraries for programs in Lua and Teal. Six of its files carry logic
-- that is modelled here.
--
-- core/connector.c is the sandbox's endpoint connector. A launcher reads a policy's endpoints and
-- its lists of refused addresses, lays the endpoints out as an immutable table of socket addresses,
-- and forks a child that closes all but two descriptors, installs a seccomp filter and then serves
-- requests to connect. The filter lets the child connect only to pointers into the table or to its
-- two scratch slots. Its parts and their files:
--   Connector/Bpf           struct connector_insn, and the filter machine, as `run` of
--                           core/promises_test.tl steps it
--   Connector/Filter        connector_emit to connector_program, on an explicit builder state
--   Connector/Filter/Blocks, Layout, Policy, Size
--                           what the builder writes as lists, and the policy that it decides
--   Connector/Filter/Handler connector_filter
--   Connector/Address       connector_address, connector_prefix, connector_within,
--                           connector_public_allowed, and cosmic_numeric_host of core/socket.c
--   Connector/Address/Within, Allowed
--                           prefixes by bits, and the addresses allowed
--   Connector/Address/Texts what a text that is read as a prefix says
--   Connector/Address/Lists connector_prefixes and connector_public_read
--   Connector/Table         connector_endpoints, connector_map, connector_table, connector_scratch
--   Connector/Table/Offsets, Placement, Made
--                           where the table's ranges lie
--   Connector/Table/Prepared connector_prepare
--   Connector/Request       connector_begin, connector_connect, connector_public_connect,
--                           connector_decode
--   Connector/Request/Wire, Outward
--                           the bytes of a request, and what a public request connects to
--   Connector/Serve         connector_reply, connector_serve, connector_settle, connector_loop
--   Connector/Serve/Sweep, Account, Rounds, Bounds
--                           one round of the loop
--   Connector/Hold          connector_hold
--   Connector/Tests         the theorems at concrete inputs
--
-- core/html.c escapes text for markup and carries it as safe values. Its files:
--   Html                    the escapes and the link check, on lists of bytes
--   Html/Values             the functions over Lua values; a function that raises is an error value
--   Html/Values/Doors       what stays true of values through escape and concat
--   Html/Runs, Text, Attr, Url, Link
--                           the loops that copy runs, and each escape
--   Html/Query              html_url_query
--   Html/Tests              the theorems at concrete inputs
--
-- core/json.c writes strings as JSON; its parser is a library.
--   Json                    is_utf8 and put_string
--   Json/Strings            what is written reads back
--   Json/Tests              the theorem at a concrete input
--
-- core/http.c checks what a request carries before curl sends it.
--   Http                    header_problem and is_token
--   Http/Headers            a header as a line that a server reads
--   Http/Tests              the theorem at a concrete input
--
-- core/promises.c builds the filter that holds a program to what it promised.
--   Promises/Calls, Calls/Numbers
--                           the calls by name, and each architecture's numbers
--                           (core/promises_calls.h)
--   Promises/Rules, Rules/Tables
--                           the rules and the tables of grants
--   Promises/Block          emit, test, load, mask, finish and rule_block, on an explicit builder
--   Promises/Block/Steps    the tests of each rule
--   Promises/Block/Performed, Layout, Verdict, Permits
--                           a block as a list, what it answers, and what each rule permits
--   Promises/Tree           the decision tree
--   Promises/Tree/Marks, Sorted, Search
--                           the tree as a list with holes, and a run of it as a search
--   Promises/Program        add, and program_for in its parts
--   Promises/Program/Sorted, Entries, Holes, Places, Layout
--                           the sorted entries, the jumps, the blocks, and the whole program
--   Promises/Program/Policy the policy that the filter decides
--   Promises/Program/Added, Grants, Guarantees
--                           what the tables come to for one call, and what no promise lets through
--   Promises/Handler, Handler/Answers, Handler/Asked
--                           cosmic_promise_named, promise_filter and cosmic_promises_apply
--   Promises/Tests          the theorems at concrete inputs, and a filter built and run
--
-- core/portable.c reads the blocks that an artifact ends with.
--   Portable/Bytes          the reads of a file, numbers and ranges
--   Portable/Decode         decode_blocks, decode_host, cosmic_host_decode, cosmic_host_trailer
--   Portable/Reads          the bytes that cosmic_read_at gives
--   Portable/Ranges         where the parts of a host program lie in the file
--   Portable/Tests          the theorem at a concrete input
--
-- Prelude holds the shared names: Boolean tests and lists over native numbers (Prelude/Tests,
-- Prelude/Lists), bitwise lemmas (Prelude/Bits), strings as lists of bytes (Prelude/Text) and
-- results of code that may fail (Prelude/Results).
--
-- How code is read. Numbers are native, and words of 32 and 64 bits have their wrap-around written
-- out (`% 2 ^ 32`) where the code relies on it. An array that is never past its bound is a list.
-- Memory is the list of socket addresses written. What the system answers is an argument: the page
-- size and mappings (Table.System), socket and connect (Request.Network), poll, the clock and the
-- reply's stream (Serve.World), the size and the reads of a file (Portable.Bytes.Source), and the
-- kernel's answers to a process's own calls (Hold). inet_pton is a resolver with the lengths of
-- its answers as laws. A process that ends is `none`.
--
-- Bounds and fuel. The filter machine runs on fuel, one round for each instruction, which is
-- enough since jumps go forward only. The halving of the decision tree runs on one round more than
-- there are entries; without a round left it would report that the program does not fit. A byte's
-- decimal digits are read with three rounds, as a byte has no more. The loops of core/portable.c
-- over reads have a round for each byte that is asked for, as each read gives at least one. All
-- other loops are by recursion on a list or on their count.
--
-- Not modelled: the portable format's own checks in core/portable.c (decode_portable and
-- cosmic_portable_decode); the fork, the wait for the child and its attacks in core/connector.c,
-- which are calls of the system; the lifetime of its mappings; the other files of core/, most of
-- which bind libraries; and everything written in Teal.
pub mod Prelude
pub mod Connector
pub mod Html
pub mod Json
pub mod Http
pub mod Promises
pub mod Portable
