-- ===== src/Tests.antt =====
-- Small worlds to run the program in, and the theorems at work in them.
mod World
mod Downloads
mod Brokers
mod Adapters
mod Systems
mod Objects
mod Wrappers
mod Bindings
mod Network
mod Lua
mod Relays
mod Scripts
mod Servers
mod Heaps
