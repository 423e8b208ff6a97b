-- ===== src/Ros.antt =====
-- integrations/: what the ROS nodes do with the bridge.
pub mod Images
pub mod Offload
