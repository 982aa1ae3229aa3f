-- ===== src/Broker/System/Elsewhere.antt =====
-- A connection is touched only by what concerns its own endpoint.
use sdl_atf.Common.{
  ◌≡◌, refl, ◌∙◌, Bool, true, not, ◌&&◌, none, some, Option, List, [], ◌∷◌, Bytes, arith,
  Option-cases, Bool-cases, inl, inr,
}
use sdl_atf.Broker.Table.{Endpoint, find, ep_eq}
use sdl_atf.Broker.Session.{Stream, Session, on_read}
use sdl_atf.Broker.Listener.{on_resolve}
use sdl_atf.Broker.State.{Context, Broker}
use sdl_atf.Broker.Isolation.{
  Others, close_endpoint-Others, open_endpoint-Others, send_to-Others, receive_from-Others,
  keep_session-Others, set_listener-Others,
}
use sdl_atf.Broker.System.{
  Event, opens, closes, sends, receives, resolved, reads, read_session, step, run,
}

-- The endpoint that an event concerns.
abbrev pub endpoint_of : {W : Type 0} → Event W → Endpoint
endpoint_of (opens e threads) = e
endpoint_of (closes e) = e
endpoint_of (sends e message) = e
endpoint_of (receives e) = e
endpoint_of (resolved e host r) = e
endpoint_of (reads e ec bytes) = e

-- No event of the sequence concerns the endpoint.
abbrev pub spares : {W : Type 0} → Endpoint → List (Event W) → Bool
spares j [] = true
spares j (v ∷ vs) = not (ep_eq (endpoint_of v) j) && spares j vs

module _ {W : Type 0} (st : Stream W) where
  read_session-Others :
      (b : Broker W) (e : Endpoint) (c : Context W) (ec : Bool) (bytes : Bytes)
      (o : Option (Session W))
      → Others e b (read_session st b e c ec bytes o)
  read_session-Others b e c ec bytes none j ne = (refl, refl)
  read_session-Others b e c ec bytes (some s) j ne = elim (Bool-cases s.reading) [
    | inl busy ↦ rw (busy, read_session) (keep_session-Others st b e c (on_read s ec bytes) j ne)
    | inr idle ↦ rw (idle, read_session) (refl, refl)
  ]

  pub step-Others : (b : Broker W) (v : Event W) → Others (endpoint_of v) b (step st b v)
  unfolding step
  step-Others b (opens e threads) j ne = open_endpoint-Others st b e threads j ne
  step-Others b (closes e) j ne = close_endpoint-Others st b e j ne
  step-Others b (sends e m) j ne = send_to-Others st b e m j ne
  step-Others b (receives e) j ne = receive_from-Others st b e j ne
  step-Others b (resolved e host r) j ne = elim (Option-cases (find e b.listener_context)) [
    | inl absent ↦ rw (absent, step) (refl, refl)
    | inr (c, found) ↦ elim (Bool-cases c.listener.resolving) [
      | inl busy ↦
          rw (found, step)
            (simp busy (set_listener-Others st b e c (on_resolve st host c.listener r) j ne))
      | inr idle ↦ rw (found, step) (simp idle (refl, refl))
    ]
  ]
  step-Others b (reads e ec bytes) j ne = elim (Option-cases (find e b.listener_context)) [
    | inl absent ↦ rw (absent, step) (refl, refl)
    | inr (c, found) ↦ rw (found, step) (read_session-Others b e c ec bytes c.listener.session j ne)
  ]

  -- A sequence of calls and completions that concern other endpoints leaves the connection of an
  -- endpoint, with its session and the messages in it, and the messages pending for it as they were.
  pub run-spares :
      (b : Broker W) (j : Endpoint) (vs : List (Event W))
      → spares j vs ≡ true
      → (find j (run st b vs).listener_context ≡ find j b.listener_context)
        × (find j (run st b vs).msg_queue ≡ find j b.msg_queue)
  unfolding run
  run-spares b j [] h = (refl, refl)
  run-spares b j (v ∷ vs) h =
      let (p, q) = run-spares (step st b v) j vs (ground arith) in
      let (p', q') = step-Others b v j (ground arith) in (p ∙ p', q ∙ q')
