-- ===== src/Plan.antt =====
-- src/core/executor/execution_plan.cc
pub mod Types
pub mod Sizes
pub mod Buffers
pub mod Channels
pub mod Operations
pub mod Document
pub mod Load
