-- ===== src/Examples.antt =====
-- Tests of the definitions on concrete inputs, and the theorems at inputs that meet their hypotheses.
mod Maps
mod Addresses
mod Streaming
mod Panoramas
mod Senders
mod Cameras
mod Clocks
mod Clicks
mod Latencies
mod Storages
mod Panels
mod Journeys
mod Pictures
mod Messages
mod Runners
mod Arrivals
