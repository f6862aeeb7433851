-- ===== src/Nfs.antt =====
-- pkg/nfs: highly available NFS exports.
pub mod Cidr
pub mod ResourceConfig
pub mod Promoter
pub mod Parsing
pub mod Service
