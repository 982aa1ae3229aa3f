-- ===== src/Broker.antt =====
-- src/remote_adapter/remote_adapter_server/plugins/transport: the plugin `MessageBroker` of the
-- server, which connects to web sockets and passes messages on.
pub mod Table
pub mod Session
pub mod Listener
pub mod State
pub mod Calls
pub mod Pending
pub mod Receiving
pub mod Connections
pub mod Isolation
pub mod System
pub mod Handlers
pub mod Binding
pub mod Reading
pub mod Destroying
