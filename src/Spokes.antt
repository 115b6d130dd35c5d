-- ===== src/Spokes.antt =====
-- internal/spokes/spokes.go: the receive side of a push.
pub mod Packet
pub mod Command
pub mod HiddenRefs
pub mod RefLine
pub mod Limits
pub mod ReadCommands
pub mod Report
pub mod Outside
pub mod Programs
pub mod Unpack
pub mod Connectivity
pub mod NetworkRepo
pub mod Discovery
pub mod Execute
pub mod Supported
pub mod Entry
