-- ===== src/Network.antt =====
-- src/network.cc: the bindings of Qt's sockets to Lua.
pub mod Ciphers
pub mod Qt
pub mod Connect
pub mod Sockets
