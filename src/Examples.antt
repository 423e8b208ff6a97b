-- ===== src/Examples.antt =====
-- The theorems at concrete inputs, and runs of the definitions on inputs from the repository's tests.
mod Descriptors
mod Pools
mod Seqlocks
mod Notifications
mod Publishers
mod Subscribers
mod Handshakes
mod Touches
mod RealTime
mod Waits
mod Channels
mod Bridges
mod Surfaces
mod Siblings
mod Bindings
mod Devices
mod Nodes
mod Filters
