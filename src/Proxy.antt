-- ===== src/Proxy.antt =====
-- src/ceph_proxy, the side that talks to the Ceph cluster.
pub mod ConcurrentQueue
pub mod Semaphore
pub mod PoolStat
pub mod CcmAdaptor
pub mod OsdMap
pub mod Buffers
pub mod RadosWorker
pub mod IoCtx
pub mod RbdWrapper
pub mod OmapIter
pub mod Settings
pub mod Start
mod Tests
