-- ===== src/Driver.antt =====
-- The camera streaming driver of the robot, streaming_driver.
pub mod Config
pub mod Elements
pub mod Pipeline
pub mod Panorama
pub mod Runner
pub mod Camera
pub mod Latency
