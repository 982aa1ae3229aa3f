-- ===== src/Broker/System.antt =====
-- The broker with its environment: the calls of clients, and the completions of the asynchronous
-- operations, in any order.
pub mod WellFormed
pub mod Elsewhere
pub mod Waiting
pub mod Delivery
use sdl_atf.Common.{
  ℕ, ◌≡◌, ◌≢◌, refl, sym, ap, ◌∙◌, ℤ, pos, Bool, true, false, Option, none, some, List, [], ◌∷◌,
  ◌++◌, Bytes, arith, Bool-cases, Option-cases, ◌⊎◌, inl, inr, if◌then◌else◌,
}
use sdl_atf.Broker.Table.{Endpoint, find, put, find-put, find-erase, ep_eq, ep_eq_iff}
use sdl_atf.Broker.Session.{Stream, Session, on_read, get_message}
use sdl_atf.Broker.Listener.{Listener, Resolved, on_resolve, get_session}
use sdl_atf.Broker.State.{Context, Broker, empty_broker, pending, set_pending, set_listener}
use sdl_atf.Broker.Calls.{
  close_endpoint, open_endpoint, send_to, receive_from, flush_loop, flush_queue, flush_pending,
  keep_session,
}
use sdl_atf.Broker.Pending.{find-keep_session}
use sdl_atf.Broker.Connections.{open_endpoint_lem}
use sdl_atf.Broker.Isolation.{
  Others, close_endpoint-Others, open_endpoint-Others, send_to-Others, receive_from-Others,
  keep_session-Others, set_listener-Others,
}

-- `resolved` and `reads` complete an `async_resolve` and an `async_read` of the endpoint's listener.
pub data Event (W : Type 0) : Type 0 where
  opens : Endpoint → ℤ → Event W
  closes : Endpoint → Event W
  sends : Endpoint → Bytes → Event W
  receives : Endpoint → Event W
  resolved : Endpoint → Bytes → Resolved W → Event W
  reads : Endpoint → Bool → Bytes → Event W

module _ {W : Type 0} (st : Stream W) where
  abbrev pub read_session :
      Broker W → Endpoint → Context W → Bool → Bytes → Option (Session W) → Broker W
  read_session b e c ec bytes none = b
  read_session b e c ec bytes (some s) = elim s.reading [
    | true ↦ keep_session st b e c (on_read s ec bytes)
    | false ↦ b
  ]

  unfoldable pub step : Broker W → Event W → Broker W
  step b (opens e threads) = (open_endpoint st b e threads).0
  step b (closes e) = (close_endpoint st b e).0
  step b (sends e message) = (send_to st b e message).0
  step b (receives e) = (receive_from st b e).0
  step b (resolved e host r) = elim (find e b.listener_context) [
    | none ↦ b
    | some c ↦ elim c.listener.resolving [
      | true ↦ set_listener b e c (on_resolve st host c.listener r)
      | false ↦ b
    ]
  ]
  step b (reads e ec bytes) = elim (find e b.listener_context) [
    | none ↦ b
    | some c ↦ read_session b e c ec bytes c.listener.session
  ]

  unfoldable pub run : Broker W → List (Event W) → Broker W
  unfolding step
  run b [] = b
  run b (v ∷ vs) = run (step b v) vs
