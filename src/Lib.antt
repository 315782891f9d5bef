-- ===== src/Lib.antt =====
-- cyphal.rs: the Cyphal protocol stack of the crate `cyphal`, over classic CAN.
--
-- The crate turns transfers into CAN frames and back. A `Node` (cyphal/src/node.rs) owns a
-- `TransferManager` (trait in cyphal/src/transfer/manager.rs), which stores transfers under tokens,
-- and is generic in a `Transport` (trait in cyphal/src/transport/mod.rs), which knows frames. The
-- transport here is classic CAN (cyphal/src/transport/can/legacy.rs with the bit fields of
-- cyphal/src/transport/can/bitfields.rs), the manager `MapTransferManager`
-- (cyphal/src/transfer/map_manager.rs).
--
-- Files:
--   Types        the types of cyphal/src/lib.rs, cyphal/src/types.rs and cyphal/src/transfer/mod.rs,
--                with `Hash for TransferMetadata` in Types.Hashing and Types.Sessions
--   Bitfields    `CanMessageId`, `CanServiceId` and `TailByte` of bitfields.rs, one module each
--   Can          legacy.rs: Can.Data (metadata, checksums, frames), Can.Receive
--                (`rx_process_frame`, in pieces for its guards), Can.Transmit (`transmit_frame`);
--                Can.Ids, Can.Frames, Can.Checksum and Can.Safety hold theorems
--   Fd           CAN FD, cyphal/src/transport/can/fd.rs: Fd.Frame, Fd.Receive (`rx_process_frame`) and
--                Fd.Iterator (`FdCanIter`); Steps, Padding, Single, Several, Stale, Reading, RoundTrip
--                and Ids hold theorems
--   Transport    the trait `Transport` as a record, which `Can.Transmit.can` fills
--   Manager      the trait `TransferManager` as a record, its errors and `timestamp_expired`
--   MapManager   map_manager.rs: State, Receive, Transmit, Timeout (with the instance of the trait);
--                MapManager.Table describes a table of transfers, for Refinement;
--                Kept, Reachable, Expiry, Failure and Tokens hold theorems
--   Node         node.rs: Data (`start_tx_transfer`), Receive (`try_receive_frame`), Transmit
--                (`transmit_frame`); Node.Interleaving is a user's loop over
--                `try_receive_frame`; Filter, Entry and Interleaving hold theorems
--   Sessions     the session managers of cyphal/src/transfer/heap_manager.rs (Heap) and
--                cyphal/src/transfer/std_vec.rs (StdVec); Same, Assembly, Extent, Subscriptions,
--                Reachable and Routing hold theorems
--   Crc16        the checksum of cyphal/src/crc16.rs; Crc16.Bitwise describes it bit by bit;
--                Crc16.Xor and Crc16.Table hold theorems
--   Link         two nodes: the loop in which a user sends frame after frame and hands each to the
--                other node, from the start of a transfer to the token at the receiver; in
--                Link.Interleaved the frames come among others; Link.Sending is the sender alone
--   Packing      examples/embedded/src/util.rs, with its theorems in Packing.Words
--   Basic        the loop of `main` of examples/basic/src/main.rs (Main); Turns holds a theorem.
--                Basic.Api is what it takes from other crates.
--   Firmware     the clock of examples/embedded/src/clock.rs (Clock), and `publish` (Publish) and the loop
--                of `main` (Main) of examples/embedded/src/main.rs; Sending holds a theorem.
--                Firmware.Api is what they take from other crates, and Uavcan what both examples take
--                from `uavcan`, of an older version.
--   Derive       the derive macro of uavcan-derive/src/lib.rs. Derive.Classify is the classification of
--                types, Derive.Expand is `impl_uavcan_struct`, from the input to the code it makes;
--                Derive.Struct and Derive.Deserialize are that code, `serialize` and `deserialize` of
--                a struct with named fields. Derive.Syn and Derive.Serializable are parameters.
--                Progress, Order, Reading, RoundTrip, Patterns, Faithful and Misclassified hold theorems.
--   Time         the clocks of cyphal/src/time.rs: Time.TestClock and Time.StdClock
--   HashMap      `std::collections::HashMap` as an association list
--   Base         lists, tests on numbers, and `Result`
--   Crates, CrcAny, Clock
--                what the program takes from other crates: `bitfield`, `num_derive`, `num_traits`
--                and `embedded_can`; `crc_any`; `embedded_time`. Each is a record of operations with
--                the documented laws that the proofs use.
--   Tests        values for these records, concrete runs, and the theorems at concrete inputs
--
-- How the code is written here. A function of the program has the name of its source. A number is a
-- native natural number; where a width matters, the remainder is written out. A `&mut self` is taken
-- and returned. `Result E A` has `ok`, `err` and `panic`: an index out of range, an `unwrap` of
-- nothing and a failed assertion are `panic`, and the state returned beside a panic is the one at the
-- panic. A callback is a function that takes what it captures and returns it; the callback of
-- `start_tx_transfer` takes its buffer and returns it. A `u64` token is its number. The hasher of
-- `HashMap` and of tokens is a function on the sequence of writes, and nothing is assumed of it; two
-- sessions whose hashes collide share a token, as they do in the program. `HashMap` iterates in the
-- list's order.
--
-- A difference on `usize` below zero is a panic, as is a sum of more than 64 bits. What is no more than
-- the length of a `Vec` does not overflow: `overflows` in MapManager.Transmit says so for lists of any
-- length, where a `Vec` has one that fits a `usize`.
--
-- Termination. Loops over slices and maps are structural. The loops of the derived
-- `serialize` and `deserialize` take fuel, one unit for a turn: one for each flattened field, or for
-- each field if all finish, and one more are enough.
-- `Firmware.Publish.block` takes a unit for each try of the device, and `publish_loop` one for each
-- frame and one more, as does `Basic.Main.write_loop`.
-- `Link.Exchange.exchange` is a user's loop and takes fuel, one unit for a frame; the round trip states
-- how much is enough.
--
-- The session managers are older than the rest, and not compiled: they use a frame, session metadata
-- and errors that the crate no longer has. These are parameters, Sessions.Api, with one
-- `from_frame` for the transfers of both. So is CAN FD, whose
-- module is disabled: the trait `Transfer`, `InternalRxFrame` (Fd.Api) and the crate `arrayvec`
-- (Fd.ArrayVec) are parameters. A push past the capacity, which the code does not check, counts as a
-- panic.
--
-- Not modelled: of the derive macro, the text of the tokens, and the code for unit structs, which
-- does not compile, and for enums, which is `unimplemented!`; the tests; the
-- set-up of the examples, and the allocator and the logger of the firmware. Logging has no effect and
-- is left out.
pub mod Base
pub mod Basic
pub mod Bitfields
pub mod Can
pub mod Clock
pub mod Crates
pub mod Crc16
pub mod CrcAny
pub mod Derive
pub mod Fd
pub mod Firmware
pub mod HashMap
pub mod Link
pub mod Manager
pub mod MapManager
pub mod Node
pub mod Packing
pub mod Sessions
pub mod Tests
pub mod Time
pub mod Transport
pub mod Types
pub mod Uavcan
