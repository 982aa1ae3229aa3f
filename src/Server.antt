-- ===== src/Server.antt =====
-- src/remote_adapter/remote_adapter_server: the program `main.cc` and the plugin manager.
pub mod Port
pub mod Plugins
pub mod Main
