-- ===== src/Qt.antt =====
-- src/marshal.cc, src/qtdynamic.cc and src/qtlua.cc: signals and slots of Qt for Lua objects.
pub mod Signature
pub mod Types
pub mod Dynamic
pub mod Emit
pub mod Marshal
pub mod Calling
pub mod Connect
pub mod Objects
