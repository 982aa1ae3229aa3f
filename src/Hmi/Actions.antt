-- ===== src/Hmi/Actions.antt =====
-- What happens to an adapter in its life.
use sdl_atf.Common.{Bool, List, [], ◌∷◌, Bytes}
use sdl_atf.Client.Connection.{RpcClient}
use sdl_atf.Hmi.Adapter.{Adapter, connect, send, receive, listen}

-- What the owner of the adapter and its listener thread do; `connects` with whether a thread starts.
pub data Action : Type 0 where
  connects : Bool → Action
  receives listens : Action
  sends : Bytes → Action

module _ {C : Type 0} (rpc : RpcClient C) where
  unfoldable pub act : Adapter C → Action → Adapter C
  act a (connects starts) = (connect rpc starts a).0
  act a receives = (receive rpc a).0
  act a listens = listen rpc a
  act a (sends message) = (send rpc a message).0

  unfoldable pub acts : Adapter C → List Action → Adapter C
  unfolding act
  acts a [] = a
  acts a (x ∷ xs) = acts (act a x) xs
