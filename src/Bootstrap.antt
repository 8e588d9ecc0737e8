-- ===== src/Bootstrap.antt =====
-- src/core/bootstrap/bootstrap.cc
pub mod Ring
pub mod Stream
pub mod Peers
pub mod Root
