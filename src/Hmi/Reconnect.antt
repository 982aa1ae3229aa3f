-- ===== src/Hmi/Reconnect.antt =====
-- An adapter that has lost its connection.
use sdl_atf.Common.{Bool, ◌≡◌, true, false, [], ◌∷◌, ◌++◌, Bytes, codes, arith}
use sdl_atf.Protocol.{ResponseType, success, no_connection}
use sdl_atf.Client.Connection.{RpcClient, returned}
use sdl_atf.Hmi.Adapter.{Adapter, connected, remote_call, connect, send}

module _ {C : Type 0} where
  -- The connection was made once, and is lost.
  pub record IsLost (a : Adapter C) : Type 0 where
    pub has_listener : a.listener ≡ true
    pub not_connected : a.is_connected ≡ false

module _ {C : Type 0} (rpc : RpcClient C) where
  -- Sending fails without a call to the remote side, and changes nothing.
  pub send_lost :
      (a : Adapter C) (m : Bytes) → IsLost a → send rpc a m ≡ (a, returned no_connection)
  unfolding send
  send_lost a m v = simp v.not_connected

  -- Connecting anew when the remote side opens the connection emits `connected`.
  connect_lost :
      (starts : Bool) (a : Adapter C)
      → IsLost a
      → (r : ResponseType)
      → (remote_call rpc a (codes "open") a.connection_parameters).1 ≡ returned r
      → r.second ≡ success
      → (connect rpc starts a).0.emitted ≡ a.emitted ++ connected ∷ []
  unfolding connect
  connect_lost starts a v r e ok = ground arith
