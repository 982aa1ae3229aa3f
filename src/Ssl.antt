-- ===== src/Ssl.antt =====
-- src/luaopenssl/lua_openssl.cc: the bindings of OpenSSL to Lua.
pub mod Library
pub mod Printing
pub mod Context
pub mod Session
