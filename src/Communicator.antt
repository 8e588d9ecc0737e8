-- ===== src/Communicator.antt =====
-- src/core/communicator.cc
pub mod Futures
pub mod Local
