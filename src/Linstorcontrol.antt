-- ===== src/Linstorcontrol.antt =====
-- pkg/linstorcontrol: LINSTOR resources one level above the client.
pub mod Status
pub mod Ensure
