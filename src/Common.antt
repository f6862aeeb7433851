-- ===== src/Common.antt =====
-- pkg/common: the types that the three kinds of targets share.
pub mod Volume
pub mod Status
pub mod Ip
pub mod Volumes
pub mod Wait
