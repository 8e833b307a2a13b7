-- ===== src/Headset.antt =====
-- The headset application, VR_App.
pub mod Enums
pub mod Resolution
pub mod Config
pub mod Address
pub mod Rest
pub mod Snapshot
pub mod Packet
pub mod Sender
pub mod Ntp
pub mod Settings
pub mod Storage
pub mod Table
pub mod Controls
pub mod Panel
pub mod Stats
pub mod Probes
pub mod Frames
pub mod Gateway
pub mod Session
pub mod Receiver
pub mod Frame
pub mod Drawing
pub mod Highlight
