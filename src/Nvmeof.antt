-- ===== src/Nvmeof.antt =====
-- pkg/nvmeof: highly available NVMe-oF targets.
pub mod Nqn
pub mod ResourceConfig
pub mod Promoter
pub mod Service
