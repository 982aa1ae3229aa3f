-- ===== src/Client.antt =====
-- src/remote_adapter/remote_adapter_client/remote_client: `RemoteClient` and its RPC connection.
pub mod Connection
pub mod Calls
