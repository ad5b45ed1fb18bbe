-- ===== src/Lib.antt =====
-- Aurelia, a peer-to-peer messaging mesh: the logic of its peering layer that decides about bytes, chunks,
-- messages, sessions and configuration.
--
-- A domus (a node) holds one primary callis (a connection) and several blob callis to each peer. Messages
-- go over the primary callis as a header of the wire format and a payload, each tracked until the peer
-- acknowledges it. A blob is a stream of bytes: the sender cuts it into chunks, which travel on any blob
-- callis, are acknowledged one by one and sent again when a callis fails; the receiver puts them in
-- order. A session with a peer outlives its callis: it numbers the messages, and remembers those received,
-- so that a message that is sent again is handled once. The parts meet at plain data: the buffers hand out
-- chunks under leases, the wire format carries their identifiers, and the identifiers of errors and messages
-- are shared by all.
--
-- Which file models what (paths from the root of the repository):
--   Prelude        the standard library: machine words, lists, hash maps as association lists
--   Ids            src/crates/ids/src/lib.rs: message types, error and log identifiers, AureliaError
--   Wire           src/crates/peering/src/wire.rs: WireHeader (Header), the control payloads (Payloads)
--   RingBuffer     src/crates/peering/src/ring_buffer:
--     Inbound      inbound.rs: InboundRingBuffer, insert_chunk and take_next
--     Outbound     outbound/chunks.rs: OutboundChunks, push_available; its child Transfer has finalize and
--                  the life of a chunk in its slot (lease, flight, replay, completion)
--     Buffer       outbound/state.rs and outbound.rs: the lifecycle, and each section under the lock
--   Retained       src/crates/peering/src/transport/primary_dispatch/store.rs: one lane; its child Store has
--                  RetainedStore, insertion, removal and completion, its child Flow the claims of the
--                  writers, the ends of writes, replay and the deadlines
--   Dispatch       src/crates/peering/src/transport/primary_dispatch.rs and primary_dispatch/retained.rs: the
--                  operations on the retained store under its lock, with the completions and wake-ups they send
--   Framing        src/crates/peering/src/transport/frame.rs: the frames that are sent (Sending), the interruptible
--                  reader FrameReadState (Reading) and read_frame (Exact)
--   Session        src/crates/peering/src/session.rs and message_id.rs: PeerSession and its numbers; its child
--                  Dedupe has the record of received messages, its child Receiving the tasks that handle
--                  them, with the waiters of src/crates/peering/src/transport/callis.rs
--   Config         src/crates/peering/src/config.rs: DomusConfig, its builder, validation and bounds
--   Logging        src/crates/logging/src/limited.rs: when a limited message is logged
-- The children of a module prove what their names say; the children Examples hold tests and the theorems
-- at concrete inputs.
--
-- How the code is read. A method on `&mut self` is a function from the state to the new state and its
-- result; what happens under one lock is one function. Numbers are natural numbers; where the source
-- saturates or wraps, so does the model, and usize has 64 bits. A byte string is a list of numbers. A
-- hash map is an association list with one entry for each key, and its iteration takes the list's order; a
-- heap is its sorted list; an instant is a number, handed in where the source asks the clock; the
-- sending end of a channel is a number. An error is the identifier of its kind,
-- and a whole AureliaError where its message matters.
--
-- Loops. The `while` loop of push_available runs on fuel, one more than the bytes that are buffered or
-- pushed; each round takes a chunk of at least one byte out of these, and RingBuffer/Outbound/Accept
-- shows that the fuel does not run out. The loops of read_next that fill a buffer run on the size of the
-- buffer, since each round reads at least one byte or ends the loop; Framing/Cases shows that it is enough.
-- All other loops are structural.
--
-- Third-party code: the functions of tokio that read and write a stream are parameters, with what their
-- documentation promises as hypotheses (Reads, Writes, ReadsExactly).
--
-- Not modelled: sockets, TLS and certificates (third-party code); tasks, timers and the wake-ups between
-- them, of which only the conditions that they check are modelled; the output of log lines and the
-- observation of events, which decide nothing; formatting for display; test-only methods; the blob
-- registry, the handshake and the actors of peers and their callis, which drive those tasks and sockets; the
-- build tool, which is not part of the running program.
pub mod Prelude
pub mod Ids
pub mod Logging
pub mod Config
pub mod Wire
pub mod RingBuffer
pub mod Retained
pub mod Dispatch
pub mod Framing
pub mod Session
