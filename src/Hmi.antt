-- ===== src/Hmi.antt =====
-- src/remote_adapter/remote_adapter_client/hmi_adapter/hmi_adapter_client.cc: `HmiAdapterClient`,
-- by which the test framework speaks to SDL as its HMI over a connection of the remote broker.
pub mod Adapter
pub mod Reconnect
pub mod Actions
pub mod Signals
