-- ===== src/Xml.antt =====
-- src/luaxml/lua_xml.cc: the bindings of libxml2 to Lua.
pub mod Errors
pub mod Library
pub mod Nodes
pub mod Tables
