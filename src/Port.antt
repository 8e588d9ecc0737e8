-- ===== src/Port.antt =====
-- Port channels: src/core/port_channel.cc and include/mscclpp/port_channel_device.hpp.
pub mod Device
pub mod Service
