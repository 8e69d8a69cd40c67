-- ===== src/Lib.antt =====
-- OdinLink-Five: the kernel driver that carries messages between two hosts over Thunderbolt, the verbs
-- provider that gives them the interface of RDMA, and the daemon that keeps two folders in step.
--
-- A message is a byte string that a process sends on a stream. The driver cuts it into frames of at
-- most 4096 bytes with an 8-byte header, puts them on the transmit ring, and at the peer the receive
-- callback puts the fragments of a stream together and queues whole messages for the reader. Transmit
-- and receive share one pool of frame slots. Before any of it, two hosts log in to each other, agree on
-- the depth of their rings, bring the paths up and check them with a ping. The verbs provider opens two
-- streams for each queue pair: applications post requests to its queues, and its threads send and
-- receive and post completions. The daemon tells the peer's daemon what its folder holds and fetches
-- files in chunks, each a message of the sync protocol. The parts, with the files that model them:
--
--  * Prelude (with Tests, Lists, Int): names of the libraries, Boolean tests on numbers, lists with
--    numbers as indices, integers for counters that can be negative. Errno: results of calls.
--  * Wire: driver/uapi/odl_tb5_uapi.h and the headers of driver/odl_tb5_core.h. Wire.Codec: encoding and
--    decoding.
--  * FramePool: odl_tb5_frame_pool_get, _put and _get_batch of driver/odl_tb5_ring_dma.c. The lock makes each
--    of them one function on the pool. Balance: count, bitmap and slots agree. Batch: the batch.
--  * Stream: what odl_tb5_rx_callback does to the stream of a fragment. Assembly: messages that arrive
--    whole. Loss: messages that do not. Undetected: losses that are not noticed.
--  * Receive: the callback itself, odl_tb5_rx_repost, and the reads odl_tb5_stream_recv and
--    odl_tb5_stream_wait_rx. Repost, Dispatch and Queue: their laws.
--  * Send: odl_tb5_stream_send_latency, a loop whose rounds meet an environment: what others do to the
--    pool, signals, faults, and the ring's answer. Chunks: the frames of a message. Prefix: what is on the
--    ring when a send ends. Total: when it ends well.
--  * Throughput: odl_tb5_stream_send_throughput, which stages 64 frames at a time in a buffer of the batch
--    pool. Stage and Same: its frames are those of the other loop. Total: when it ends well. Buffer: the
--    count of one buffer.
--  * TxMode: odl_tb5_evaluate_tx_mode, which chooses between the two. Hysteresis: how it changes. Transmit:
--    odl_tb5_stream_send, the checks, the choice and the send. Outcomes: what it leaves on the ring.
--  * Registry: odl_tb5_stream_create and odl_tb5_stream_destroy. Ids: the table of streams and their ids.
--  * TxMsg: the message's references and their release. Race: the same, one access at a time, as a step
--    relation of a sender and callbacks; it lets any number of these overlap, though the driver runs them
--    from one work item. Release: what all interleavings share.
--  * Link: frames of a send as they complete at the peer. Streams and Delivery: from end to end.
--  * Handshake: driver/odl_tb5_proto.c: login and logout packets, the workers that log in, connect, verify
--    and restart. Depth and Rings: ring depths and the rings. Connect: odl_tb5_complete_connection in the
--    stretches that the state lock makes. Verify: the ping. Stretch: all of it as a step relation, in which
--    the hardware work and a restart, which do not hold the lock, have a step for each write. Agreement, Steps,
--    Answered, Stale, Login and Forgotten: what holds of it.
--  * Verbs.Fifo and Verbs.Ring (with Count): a bounded queue, and the entries in use of a ring, for the
--    three rings of the provider.
--  * Verbs.Cq: verbs/src/odl_tb5_verbs_cq.c: post, poll and arming. Create: odl_create_cq. Fifo: the ring as
--    a queue. Wakeup: the event.
--  * Verbs.Handles, Verbs.Mr and Verbs.Pd: the tables of a context, verbs/src/odl_tb5_verbs_mr.c and
--    verbs/src/odl_tb5_verbs_pd.c.
--  * Verbs.Copy, Verbs.Sq and Verbs.Worker: odl_wc_stream_copy, odl_post_send and odl_qp_worker of
--    verbs/src/odl_tb5_verbs_qp.c. Sq.Fill, Post and Head: what is in the queue. Worker.World: callers and
--    worker as a step relation, cut where they release their locks. Stages, Tries, Order, Logs,
--    Snapshot and Overtake: what holds of it.
--  * Verbs.Rq: odl_post_recv and odl_rq_drain. Post and Drain: their laws.
--  * Verbs.Qp: odl_create_qp with its error paths, odl_destroy_qp and odl_modify_qp. Create: their laws.
--  * Daemon.Bytes and Daemon.Message: daemon/src/odl_tb5_daemon_sync_proto.c: numbers and strings as bytes,
--    the messages and their senders. Message.Accept: odl_sync_recv_msg. Message.Codec: reading back.
--  * Daemon.Receiver: a round of sync_receiver_loop of daemon/src/odl_tb5_daemon_sync.c.
--  * Daemon.Table and Daemon.Catalog: a hash table, and daemon/src/odl_tb5_daemon_catalog.c on it. Dir:
--    odl_catalog_list_dir. Scan, Peer, Local and Stale: their laws.
--  * Daemon.Transfer: the transfer of a file in daemon/src/odl_tb5_daemon_sync.c, on both sides. Serve: the
--    chunks. Assemble: what becomes of them. Fetch: both together.
--  * Daemon.Folder: the handlers of the peer's messages in daemon/src/odl_tb5_daemon_sync.c. Events:
--    the own folder's. Listing: the exchange of catalogues. Agreement: what two daemons say of a path.
--    Overwritten, LastCopy and Nested: files that are lost, and entries that are.
--  * Tests: the theorems at concrete devices, messages, queues and files.
--
-- State is passed explicitly: each operation takes the record of what it changes and returns it. Memory
-- that an allocator may refuse, answers of the ring, of the Thunderbolt core, of the driver's calls, of
-- threads and of file systems, and what other threads do are parameters; so is HMAC. Bytes are numbers,
-- and 16-bit, 32-bit and 64-bit fields wrap as in the source. A folder is a tree of what stat says of it.
--
-- Bounds: a send runs on fuel for its rounds; a calm round sends one frame, so the number of frames and
-- one round more are enough, and likewise a smooth round fills one buffer; a round that only waits or
-- finds no slot uses fuel without progress. A ring depth is found by at most 8 doublings from 64 to
-- 16384. A verification makes 300 attempts, and a connection 5 attempts to enable its paths, as in the
-- source. A message has at most 4096 frames. The drain of a receive queue runs on the list of the
-- driver's answers and ends with EAGAIN where the list does. The size of a chunk is a parameter where
-- a file is cut; the source has 524288.
--
-- Not modelled: of the driver, the legacy submit path and dma-buf, owners and reference counts of
-- streams, the character device and module glue; of the verbs provider, discovery of devices and
-- attribute queries; of the daemon, requests that wait, own pushes, watch descriptors, D-Bus and FUSE;
-- and the library, the plugins and the user interfaces. The hardware's own behaviour is not a part of
-- the source: completions are inputs.
pub mod Prelude
pub mod Wire
pub mod Stream
pub mod Errno
pub mod FramePool
pub mod Receive
pub mod Handshake
pub mod Link
pub mod TxMsg
pub mod Send
pub mod TxMode
pub mod Throughput
pub mod Transmit
pub mod Registry
pub mod Verbs
pub mod Daemon
pub mod Tests
