-- ===== src/Core/DbusWire.antt =====
-- crates/bubbler-core/src/dbus_wire.rs: the client of the message bus, without its socket. The children
-- are the values and types, the reader of signatures, the writer and the reader of a block of values, and
-- whole messages; what the buffer of a writer holds is passed as its length, and a writer returns the
-- bytes that it appends.
pub mod Types
pub mod Signature
pub mod Encode
pub mod Decode
pub mod Reads
pub mod Written
pub mod Pieces
pub mod Containers
pub mod Loops
pub mod Counted
pub mod Budget
pub mod RoundTrip
pub mod Message
pub mod Session
