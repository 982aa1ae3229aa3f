-- ===== src/LuaLib.antt =====
-- The library `remote` of the Lua interpreter: the wrappers of `RemoteClient` and `HmiAdapterClient`.
pub mod Parameters
pub mod Remote
pub mod Hmi
