-- ===== src/Discovery.antt =====
-- discovery/: who writes and reads which channel, in which node and process.
pub mod Role
pub mod Graph
pub mod Warehouse
pub mod Change
pub mod Manager
pub mod NodeManager
pub mod ChannelManager
pub mod Notices
