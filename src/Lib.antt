-- ===== src/Lib.antt =====
-- A verification library for bubbler, which runs programs in sandboxes. It models the parts that stand
-- between a sandbox and the host and decide, message by message, what may pass. Code is translated
-- by hand from the Rust sources; each file names the source file that it is about.
--
-- Prelude: shared helpers. Boolean tests, lists measured by native numbers, `Result` with `?` as bind,
--   bytes and words, text as bytes (with the reading of UTF-8), association lists for maps.
-- WlProxy: crates/bubbler-wl-proxy/src, the proxy between a program and the Wayland compositor.
--   Tables: tables.rs, the shape of every message. build.rs generates the tables, so that they are the
--     parameter `interfaces` everywhere.
--   Wire: wire.rs, `decode` and `encode` of one message. The machine's byte order is the parameter `order`.
--   Objects: objects.rs, the map of the objects of one connection, a record passed and returned.
--   Audit: audit.rs, the limiter of log lines. The sink is the list of the lines.
--   Privileged: privileged.rs. Policy: policy.rs, `Policy::apply` and all that it calls. Its `&mut`
--     arguments are one record `Turn`, which every function takes and returns, also on an error.
--     It calls Objects for each object made and destroyed, Wire for the error that it sends, Audit
--     for each line that it logs.
-- NetProxy: crates/bubbler-net-proxy/src, the proxy that opens tunnels to hosts.
--   Relay: relay.rs. A direction of a tunnel is the record `Dir`; what `read`, `write` and `poll` answer
--     is an input of the model, and one turn of the loop of `run` is the function `turn`.
--   Allow: allow.rs, the patterns of names and the list of allowed targets.
--   Connect: connect.rs, the reader of a CONNECT request, a function of the bytes received so far.
--   Dns: dns.rs, the reader of names and records; a message is the list of its bytes, and the cursor is a
--     number. Resolve: dns.rs, whole messages and the client. What the sockets, the clock and the source
--     of ids give to one attempt is the record `Attempt`; it depends on the question, the resolver and
--     the try. Resolve reads with Dns and shares the splitting of names with Allow.
-- Core: crates/bubbler-core/src, the library that builds a sandbox.
--   Seccomp: seccomp.rs, the rules of the system call filter and what a profile changes in them.
--   Personality: seccomp.rs, the instructions in front of the compiled filter, as bytes. The kernel's
--     machine that runs them is the parameter `Machine`.
--   DbusWire: dbus_wire.rs, the message bus. Signatures and blocks of values: a value holds lists of values,
--     so that Value, Values and Entries are one block of types, and so are the types of a signature
--     (`Type` in the source, WireType here). The functions of the writer and of the reader at one value
--     take those for the values inside as arguments. Message: whole messages and the check of
--     descriptors; the loop over the fields of a header keeps the record Header. Session: the calls on a
--     session with the bus, `Session` as a record that each function takes and returns, also on an error.
--     What the socket and the clock answer is part of it: lists of what arrives, of the checks of the
--     deadline in a call and of the answers to `sendmsg`; where a list ends, the deadline has passed. A
--     call to the bus, which the source makes through the function that every call takes, is one by itself.
--     Session/Handshake: the lines of text that open a session, and `Hello`.
-- Init: crates/bubbler-init/src, the supervisor inside a sandbox.
--   Proto: proto.rs, the requests and statuses of the exec channel.
--   Wire: wire.rs, requests and statuses on a connection. The answers of the socket are a list;
--     `read_step` and `read_exact_by` are structural on it, and where the list ends the socket has nothing
--     more to give, or the deadline has passed.
--
-- Bytes are natural numbers, and the theorems say where they are below 256. An `i32` is its bit
-- pattern. A `usize` has 64 bits, and a sum that the source checks is checked against 2 ^ 64. A map
-- is an association list in which a key stands once. A binary search of a sorted table is a
-- scan of it, which finds the same entry of a table with no name twice. Times are numbers of
-- nanoseconds. These functions of the model take fuel: the printing of a decimal
-- number, whose forty steps are enough for a 128-bit number, and the loop over the labels of a DNS
-- name, whose 300 rounds are enough because each round that goes on adds a byte to a name of at most
-- 255 bytes or is one of at most sixteen jumps; the reader of a bus signature, with 65 types inside one
-- another for at most 32 arrays and 32 structs; and the reader of bus values, with 66 for a depth of at
-- most 64, whose loops have what is left of the budget of values. An answer follows aliases for eight
-- rounds, as the source does.
--
-- Not modelled: the sockets and threads of the network proxy (crates/bubbler-net-proxy/src/main.rs), the
-- compiled filter (build, compile and export of seccomp.rs, calls of libseccomp), the socket loop of the
-- Wayland proxy (crates/bubbler-wl-proxy/src/relay.rs), processes, threads and descriptors (each main.rs;
-- spawn.rs, fds.rs and pw_hold.rs of crates/bubbler-init/src), the socket of a session with the bus (the
-- system calls of connect, send, fill and wait in dbus_wire.rs), the configuration, profiles, services and
-- the launcher (the other files of crates/bubbler-core), the command line and the terminal interface
-- (crates/bubbler, crates/bubbler-ui), and the generator of the tables (crates/bubbler-wl-proxy/build.rs).
pub mod Prelude
pub mod Core
pub mod Init
pub mod NetProxy
pub mod WlProxy
