-- ===== src/Reactor.antt =====
-- pkg/reactor: the configuration files of drbd-reactor, and how they are kept in LINSTOR.
pub mod Agent
pub mod Config
pub mod Files
pub mod Store
