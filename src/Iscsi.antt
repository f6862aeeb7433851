-- ===== src/Iscsi.antt =====
-- pkg/iscsi: highly available iSCSI targets.
pub mod Iqn
pub mod ResourceConfig
pub mod Promoter
pub mod Service
