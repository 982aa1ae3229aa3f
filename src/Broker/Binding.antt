-- ===== src/Broker/Binding.antt =====
-- `MessageBroker::Bind`: which handler serves which name.
use sdl_atf.Common.{◌≡◌, refl, ℤ, Option, some, List, [], ◌∷◌, Bytes, codes, find_name, bytes_eq}
use sdl_atf.Protocol.{ParameterType, LexicalCast}
use sdl_atf.Broker.Session.{Stream}
use sdl_atf.Broker.State.{Broker, Addresses}
use sdl_atf.Broker.Handlers.{Served, handle_open, handle_close, handle_send, handle_receive}

-- A handler on the state of the broker.
abbrev pub Handler : Type 0 → Type 0
Handler W = Broker W → List ParameterType → Broker W × Served

module _ {W : Type 0} (cast : LexicalCast) (strerror : ℤ → Bytes) (st : Stream W)
    (ips : Addresses) where
  unfoldable pub bound_handlers : List (Bytes × Handler W)
  bound_handlers =
      (codes "open", handle_open cast strerror st ips)
      ∷ (codes "close", handle_close cast strerror st ips)
      ∷ (codes "send", handle_send cast strerror st ips)
      ∷ (codes "receive", handle_receive cast strerror st ips)
      ∷ []

  -- The handler that `rpc::server` has for a name.
  unfoldable pub handler_of : Bytes → Option (Handler W)
  unfolding bound_handlers
  handler_of name = find_name name bound_handlers

  pub handler_of-send : handler_of (codes "send") ≡ some (handle_send cast strerror st ips)
  unfolding handler_of find_name bytes_eq
  handler_of-send = refl

  pub handler_of-receive : handler_of (codes "receive") ≡ some (handle_receive cast strerror st ips)
  unfolding handler_of find_name bytes_eq
  handler_of-receive = refl
