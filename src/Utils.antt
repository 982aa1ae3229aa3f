-- ===== src/Utils.antt =====
-- src/remote_adapter/remote_adapter_server/plugins/utils: the plugin `UtilsManager` of the server.
pub mod Host
pub mod Content
pub mod FileOps
pub mod FileHandlers
pub mod Starting
pub mod Apps
pub mod AppHandlers
pub mod Command
pub mod Folders
