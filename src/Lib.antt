-- ===== src/Lib.antt =====
-- A model of the global cache adaptor, which puts a cache between Ceph's clients and its OSDs.
--
-- The server adaptor (src/server_adaptor) takes the clients' messages. Ceph's messenger threads call
-- EnqueueClientop, which puts a message on one of several queues by the name of its object. A worker
-- thread for each queue (OpHandlerThread) takes the messages over, makes a request of each
-- (ProcessOpReq, which calls MsgModule for each operation), counts it, and hands it to the accelerator
-- by DoOneOps. The accelerator is a library that is not in this repository; it answers by
-- FinishCacheOps, which sends the reply and counts the request out. The proxy (src/ceph_proxy) is
-- what the accelerator calls to reach the Ceph cluster.
--
-- Common: numbers, lists, byte strings, the conversions of the C library, and maps.
-- Server.Op, Server.MsgModule: src/server_adaptor/msg_module.cpp and the types of
--   src/dependency/include/sa_def.h. ConvertClientopToOpreq is `convert_clientop`.
-- Server.OpRequest: ProcessOpReq and ContainWriteOp of src/server_adaptor/network_module.cpp
--   (`process_op_req`, `contain_write_op`); an outcome of its own for each way to return.
-- Server.Throttle: the Get…Cas and Put…Cas functions of network_module.cpp. Each is one step on the
--   counters; Server.Throttle.Cas has the loops themselves, against what other threads do between,
--   and Server.Throttle.Balance the calls of any number of threads, in which a Put…Cas call tests
--   and swaps in two steps.
-- Server.Dispatch: src/server_adaptor/client_op_queue.h, EnqueueClientop, CreateWorkThread,
--   OpHandlerThread and FinishCacheOps, as steps of a network that may come in any order.
-- Server.CopyUp: the copyup of OSA_ExecClass in src/server_adaptor/osa.cpp.
-- Server.Replies: SetOpResult, ProcessBuf and the Encode functions of network_module.cpp, by which the
--   accelerator puts results into a client's message.
-- Server.Quota: LimitWriteIops and LimitWriteBw of network_module.cpp. The readings of the clock and
--   the answers of the accelerator are arguments; running out of answers is a call that still waits.
-- Server.Config: src/server_adaptor/config_read.cpp and the checks of OSA_Init in osa.cpp.
-- Proxy.ConcurrentQueue, Proxy.Semaphore: src/ceph_proxy/utils.h. The steps of the semaphore have
--   the premise that its counters do not wrap, and so has a post in Proxy.RadosWorker.
-- Proxy.OsdMap: src/ceph_proxy/CephMsgr.cc, which keeps a copy of the cluster's map: handle_osd_map
--   (`handle_osd_map`) with its subscriptions, and PoolChangeNotify. The loop of UpdateOSDMap has
--   fuel for two turns more than the number of the last epoch, since each turn but one raises the
--   epoch and that one skips what the monitors no longer have.
--   Proxy.OsdMap.Capacity: GetPoolBaseInfo and CephDf.
-- Proxy.Buffers: the data of writes and reads in the page lists of src/ceph_proxy/Gcbufferlist.h, of
--   RadosWriteOpWriteBl and ReadCallback in src/ceph_proxy/RadosWrapper.cc.
-- Proxy.RadosWorker: src/ceph_proxy/RadosWorker.h and RadosWorker.cc, the proxy's worker threads:
--   RadosWorker::Queue (`rados_worker_queue`), and OpHandler as steps of one thread.
-- Proxy.IoCtx: GetIoCtxWithClient of src/ceph_proxy/CephProxy.cc; Proxy.IoCtx.Table: IOCtxTable of
--   src/ceph_proxy/PoolContext.h and the functions of CephProxy.cc that use it.
-- Proxy.OmapIter: RadosOmapGetNext of RadosWrapper.cc and the lines of ReadCallback that start its
--   iterator.
-- Proxy.Settings: src/ceph_proxy/ConfigRead.cc. Proxy.Start: Init and Shutdown of
--   src/ceph_proxy/CephProxy.cc (`Run.init`, `Run.shutdown`) and RadosClientInit of RadosWrapper.cc;
--   `Handles` counts the Rados objects that are not deleted. U32AlignUp is `u32_align_up`, whose
--   digits are counted in 32 steps, as many as the word has.
-- Proxy.RbdWrapper: src/ceph_proxy/RbdWrapper.cc. The calls of librados and librbd are recorded in
--   `World`, and what they answer is a function of the calls so far (`Cluster`). RadosInit is
--   `rados_init`, with `init_locked` from its second lock on; the functions of the interface are
--   `ceph_librbd_snap_remove`, `ceph_librbd_get_image_info` and `ceph_librbd_disk_usage`. The
--   attempts to connect are five, as in the source; all other loops run over data.
-- Proxy.PoolStat: src/ceph_proxy/RadosMonitor.cc; Proxy.CcmAdaptor: src/ceph_proxy/CcmAdaptor.cc.
--
-- Numbers are natural numbers; a machine word's wrap-around is written out (`u32`, `u64`). A
-- function that can fail returns an option or a type with its ways to end. Loops over data are
-- recursive on the data and need no fuel; a loop that waits for other threads is a relation, or runs
-- over the list of the values that it reads.
--
-- Parameters: Ceph's bufferlist (`Buffer`), encodings (`Encoding`) and map (`OsdMapApi`), std::hash,
-- librados and librbd (`Cluster`, `Rados`, `Answers`), std::regex and `double` (`Doubles`), JSON (`Libraries`), the
-- configuration library and the machine (`Host`, `ConfigFile`). Locks are held where the source holds them, so that
-- what runs under one lock is one step. Allocations succeed, but where a call `allocate` stands for
-- one.
--
-- Not modelled: the messenger, logging and tracing, the wrapper of librados but for the clients, the
-- contexts, the OMAP iterator and the data of reads and writes, object classes and their registry
-- (copies of Ceph's), and the functions of CephProxy that only pass a call on.
mod Common
pub mod Proxy
pub mod Server
