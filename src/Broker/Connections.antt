-- ===== src/Broker/Connections.antt =====
-- `OpenConnection` and `CloseConnection`, and what all the calls leave alone.
use sdl_atf.Common.{◌≡◌, refl, ℤ, none, some, [], ◌∷◌, arith, Option-cases, ◌⊎◌, inl, inr}
use sdl_atf.Protocol.{success, no_connection}
use sdl_atf.Broker.Table.{Endpoint, find, put, find-put, find-erase}
use sdl_atf.Broker.Session.{Stream}
use sdl_atf.Broker.Listener.{new_listener, run_listener, stop_listener}
use sdl_atf.Broker.State.{Context, Broker, pending}
use sdl_atf.Broker.Calls.{
  close_endpoint, close_if_open, open_new, open_endpoint, threads_started, new_context,
}

-- The context that OpenConnection makes: its listener resolves, and there is no session yet.
abbrev pub fresh : {W : Type 0} → ℤ → Context W
fresh threads = record { listener = run_listener new_listener; threads = threads_started threads }

module _ {W : Type 0} (st : Stream W) where
  -- CloseConnection fails with NO_CONNECTION where there is no connection, and changes nothing;
  -- otherwise it returns SUCCESS, and the connection and its pending messages are gone.
  close_endpoint_lem :
      (b : Broker W) (e : Endpoint)
      → ((find e b.listener_context ≡ none) × (close_endpoint st b e ≡ (b, no_connection)))
        ⊎ ((c : Context W) × (find e b.listener_context ≡ some c)
            × ((close_endpoint st b e).1 ≡ success)
            × (find e (close_endpoint st b e).0.listener_context ≡ none)
            × (pending (close_endpoint st b e).0 e ≡ [])
            × ((close_endpoint st b e).0.stopped ≡ stop_listener st c.listener ∷ b.stopped))
  unfolding close_endpoint
  close_endpoint_lem b e = elim (Option-cases (find e b.listener_context)) [
    | inl absent ↦ inl (absent, rw (absent, close_endpoint))
    | inr (c, found) ↦ inr (
      c,
      found,
      ground arith,
      ground (arith, find-erase e e b.listener_context),
      ground (arith, find-erase e e b.msg_queue),
      ground arith,
    )
  ]

  close_if_open_absent :
      (b : Broker W) (e : Endpoint) → find e (close_if_open st b e).listener_context ≡ none
  unfolding close_if_open close_endpoint
  close_if_open_absent b e = ground (arith, find-erase e e b.listener_context)

  pending-close_if_open :
      (b : Broker W) (e : Endpoint)
      → (find e b.listener_context ≡ none → find e b.msg_queue ≡ none)
      → pending (close_if_open st b e) e ≡ []
  unfolding close_if_open close_endpoint
  pending-close_if_open b e only = ground (arith, find-erase e e b.msg_queue)

  open_new_lem :
      (b : Broker W) (e : Endpoint) (threads : ℤ)
      → find e b.listener_context ≡ none
      → ((open_new st b e threads).1 ≡ success)
        × (find e (open_new st b e threads).0.listener_context ≡ some (fresh threads))
        × ((open_new st b e threads).0.msg_queue ≡ b.msg_queue)
  unfolding open_new
  open_new_lem b e threads absent =
      rw (absent, open_new)
        (
          refl,
          ground (arith, find-put e e (fresh threads) (put e new_context b.listener_context)),
          refl,
        )

  -- OpenConnection never returns ALREADY_EXISTS: it returns SUCCESS, the endpoint has a new context
  -- with no session, whatever was there before, and no message is pending, given that messages are
  -- pending only where there is a connection.
  pub open_endpoint_lem :
      (b : Broker W) (e : Endpoint) (threads : ℤ)
      → (find e b.listener_context ≡ none → find e b.msg_queue ≡ none)
      → ((open_endpoint st b e threads).1 ≡ success)
        × (find e (open_endpoint st b e threads).0.listener_context ≡ some (fresh threads))
        × (pending (open_endpoint st b e threads).0 e ≡ [])
  unfolding open_endpoint
  open_endpoint_lem b e threads only =
      let (ok, new, same) =
        open_new_lem (close_if_open st b e) e threads (close_if_open_absent b e) in
      (ok, new, rw (same, pending) (pending-close_if_open b e only))
