-- ===== src/Lib.antt =====
-- The order book of Numi: packets of two redundant feeds are merged into one sequence, decoded by one
-- of three decoders, applied to limit order books with price levels in a window, a FIFO queue at each
-- level and cached best prices, and published as frames to readers. Merge hands packets to Decode
-- through Spsc; Decode calls Parser, which calls a decoder, then Book/Orders and Pubsub for each event.
--
-- Parts, by file:
--   Base, Base/Tests, Base/Lists, Base/Int, Base/Dict: names of the libraries, Boolean tests, lists
--     and their native length, ℤ with the wrap-around of i64, and maps as association lists.
--     Base/Slots: lists that are read and written by index, as vectors of slots.
--   Event: `Side` and `Event` of src/parser.rs. Parser: the rest of it, `FixedSeq::extract_seq` and
--     the choice of the decoder.
--   Wire, Wire/Values: byte slices as the decoders read them and the values of integers in them;
--     `panic` is a slice, an index or an unwrap out of range.
--   Eobi: src/decoder_eobi.rs. Fast: src/decoder_fast.rs. Itch: src/decoder_itch.rs, with the tracked
--     orders `Inner` as explicit state. The loops run on fuel for the length of the payload plus one.
--   Book: src/orderbook.rs. Book/Node is the slab of order nodes and a level; Book/Grid is `PriceGrid`;
--     Book/Levels is one side's grid and overflow map with `ensure_level_mut_in_grid`, `get_level_mut`,
--     `remove_level_if_empty` and `recenter_grid`; Book/Instrument is `InstrumentBook` with `add`,
--     `set_qty`, `cancel` and `bbo`; Book/Depth is its `top_n`; Book/Orders is `OrderBook` with
--     `apply` and `apply_many_for_instr`; Book/Export is `export`, `from_export` and `export_depth`.
--   Book/Queue: the doubly linked lists, as chains of links under a list of keys.
--   Book/Grid/Index, /Scan: the index of a price, the price of an index, and the scans for the best slot.
--   Book/Levels/Store, /Removal, /Found, /Ensure, /Recenter: a level by its price.
--   Book/Instrument/Valid: the invariant of a book, one queue for each side and price; the modules
--     beside it carry it through the operations. /BestEntry, /BestSlot, /Best and /Recompute are the
--     search for the best price, /Improve and /AddBest the cached best after `add`, /Tidied,
--     /Settle and /CancelBest that after `cancel`.
--   Book/Orders/View: the specification, a map of live orders by id; /Step, /Sound, /Refine, /Run: the
--     order book against it; /Batch: the batch path.
--   Pool: the packets of src/pool.rs.
--   Reorder: the state of src/merge.rs and what it does with a packet ahead of its turn; Merge: the
--     rest of `merge_loop`. Merge/Ring and /Valid are the reorder ring and the invariant of the loop,
--     /Drain the drain of contiguous packets, /Packet and /Prefer a packet of a feed and the choice of
--     the feed, /Turn a turn of the loop, /Keep a packet ahead of its turn.
--   Spsc: src/spsc.rs as an indexed type of steps of the two threads. Spsc/Fifo is the relation of the
--     ring to a list, /Steps and /Order the steps against it, /Calls the calls without interleaving.
--   Decode: src/decode.rs, `decode_loop` for one packet and its snapshots. Decode/Publish is the loop
--     over the events with its frames, /Cancel the frame of a cancel, /Packet a whole packet against
--     the map of live orders.
--   Obo: src/codec_raw.rs and src/obo.rs, the packed structs and the mapping of events to messages.
--   Pubsub: src/pubsub.rs. Pubsub/Log is the bus as the log of all frames, /Session its readers,
--     /Frame the bytes of a frame in the layout of docs/obo_raw_v1.md.
--   Recovery: src/recovery.rs, the injector of replayed packets. Recovery/Coalesce is the coalescing of
--     gaps, /Replay the stream of the replay service, /Requests a run over any requests.
--   Snapshot: src/snapshot.rs. Snapshot/Load is a file read back, /Atomic the file at any time of a
--     write; Book/Restore is the book that `from_export` makes.
--   Server: src/ws_server.rs, one client of the publisher. Server/Shown is the snapshot that it is
--     sent, /Follow its loop over the frames, /Session the whole client.
--   Client: the reader of frames in src/bin/ws_client.rs. Settings, Config: the options of
--     src/config.rs and their `validate`. Startup: how src/main.rs sets up the arbitration.
--
-- How state and operations correspond: a `&mut self` method is a function from state to state, a
-- method that can panic returns `none` (or `panic` in the decoders), `&mut Level` is a `Place` that is
-- read and written. `slab::Slab` is the list of its occupied entries; the key that it hands out for a
-- new node is an argument, of which only vacancy is assumed. The order in which a hash map is iterated
-- is that of the association list. Integers of the wire are naturals below their bound; i64 arithmetic
-- wraps as in a release build, which has no overflow checks; handles and counts are natural numbers
-- with the count of a level at 2^64. The clock is a function from the number of a reading to its
-- value, and what other threads put into a queue between two looks at it is an argument (`Polls` in
-- Merge). The accesses of the two threads of the SPSC queue are steps in some order, as its acquire
-- and release accesses make them appear. Metrics and logs leave no trace.
--
-- Fuel: the loops of the decoders have the length of the payload plus one, and each round reads at
-- least one byte, or the theorem names the case where it does not. `iter_fifo` has the length of the
-- queue, the replay the length of its stream plus one. The drain of the merge has one round more than
-- the ring has slots, and each round empties a slot. `next_power_of_two` doubles 63 times at most,
-- which reaches 2^63.
--
-- An order to add must fit: its level is found in the window or off the tick, or the new window drops
-- no level and covers none of the overflow map. Book/Levels/Recenter is about the other case.
--
-- Not modelled: the sockets, the frames of the kernel and the HTTP/3 server (src/rx.rs,
-- src/rx_afxdp.rs, src/net.rs, src/h3_server.rs) and the metrics (src/metrics.rs), which are input and
-- output; the listener, the handshake and failures to send of src/ws_server.rs; the logger mode of
-- src/recovery.rs; the encoding of an export in a snapshot, which is a parameter; the free list of
-- src/pool.rs, a queue of another package; threads, affinity and time (src/util.rs); the rest of
-- src/main.rs, which starts the threads; the tools of src/bin but the client.
pub mod Base
pub mod Event
pub mod Wire
pub mod Pool
pub mod Spsc
pub mod Merge
pub mod Config
pub mod Parser
pub mod Startup
pub mod Obo
pub mod Pubsub
pub mod Recovery
pub mod Reorder
pub mod Server
pub mod Settings
pub mod Snapshot
pub mod Eobi
pub mod Fast
pub mod Itch
pub mod Book
pub mod Decode
pub mod Client
