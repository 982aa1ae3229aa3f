-- ===== src/Broker/System/WellFormed.antt =====
-- Pending messages belong to connections, after any history.
use sdl_atf.Common.{
  ◌≡◌, ◌≢◌, sym, ◌∙◌, ℤ, Bool, Option, none, some, List, [], ◌∷◌, Bytes, arith, Bool-cases,
  Option-cases, inl, inr,
}
use sdl_atf.Broker.Table.{Endpoint, find, find-put, find-erase, ep_eq, ep_eq_iff}
use sdl_atf.Broker.Session.{Stream, Session, on_read, get_message}
use sdl_atf.Broker.Listener.{Listener, get_session}
use sdl_atf.Broker.State.{Context, Broker, pending, set_pending, set_listener}
use sdl_atf.Broker.Calls.{
  close_endpoint, open_endpoint, send_to, receive_from, flush_loop, flush_queue, flush_pending,
  keep_session,
}
use sdl_atf.Broker.Pending.{find-keep_session}
use sdl_atf.Broker.Connections.{open_endpoint_lem}
use sdl_atf.Broker.Isolation.{
  Others, close_endpoint-Others, open_endpoint-Others, send_to-Others, receive_from-Others,
  keep_session-Others, set_listener-Others,
}
use sdl_atf.Broker.System.{
  Event, opens, closes, sends, receives, resolved, reads, read_session, step, run,
}

module _ {W : Type 0} where
  -- Messages are pending only where there is a connection.
  pub record IsWellFormed (b : Broker W) : Type 0 where
    pub known : (j : Endpoint) → find j b.listener_context ≡ none → find j b.msg_queue ≡ none

module _ {W : Type 0} (st : Stream W) where
  abbrev KnownAt : Endpoint → Broker W → Type 0
  KnownAt e b = find e b.listener_context ≡ none → find e b.msg_queue ≡ none

  IsWellFormed-at :
      (e : Endpoint) (b b' : Broker W)
      → IsWellFormed b
      → Others e b b'
      → KnownAt e b'
      → IsWellFormed b'
  IsWellFormed-at e b b' v o k = record {
    known = λ j absent. elim (Bool-cases (ep_eq e j)) [
      | inl same ↦ let eq : e ≡ j = (ep_eq_iff e j).0 same in rw (← eq) (k (rw eq absent))
      | inr ne ↦ (o j ne).1 ∙ v.known j (sym (o j ne).0 ∙ absent)
    ];
  }

  close_endpoint_known :
      (b : Broker W) (e : Endpoint) → IsWellFormed b → KnownAt e (close_endpoint st b e).0
  unfolding close_endpoint
  close_endpoint_known b e v = ground (arith, v.known e, find-erase e e b.msg_queue)

  keep_session_known :
      (b : Broker W) (e : Endpoint) (c : Context W) (s : Session W)
      → KnownAt e (keep_session st b e c s)
  keep_session_known b e c s absent = cc (find-keep_session st b e c s)

  send_to_known :
      (b : Broker W) (e : Endpoint) (m : Bytes) → IsWellFormed b → KnownAt e (send_to st b e m).0
  unfolding send_to
  send_to_known b e m v = elim (Option-cases (find e b.listener_context)) [
    | inl absent ↦ rw (absent, send_to) (v.known e)
    | inr (c, found) ↦ elim (Bool-cases (st.is_open (get_session st c.listener).ws)) [
      | inl up ↦ rw (found, send_to) (rw (up, send_to) (keep_session_known b e c _))
      | inr down ↦
          rw (found, send_to)
            (rw (down, send_to)
              (λ gone. cc (find-keep_session st b e c (get_session st c.listener))))
    ]
  ]

  open_endpoint_known :
      (b : Broker W) (e : Endpoint) (threads : ℤ)
      → IsWellFormed b
      → KnownAt e (open_endpoint st b e threads).0
  open_endpoint_known b e threads v gone = cc ((open_endpoint_lem st b e threads (v.known e)).1)

  flush_queue_found :
      (b : Broker W) (e : Endpoint) (c : Context W) (q : List Bytes)
      → find e b.listener_context ≡ some c
      → find e (flush_queue st b e c q).listener_context ≢ none
  unfolding flush_queue
  flush_queue_found b e c [] found = λ gone. cc
  flush_queue_found b e c (m ∷ ms) found =
      elim (Bool-cases (st.is_open (get_session st c.listener).ws)) [
        | inl up ↦
            rw (up, flush_queue)
              (λ gone.
                cc (
                  find-keep_session st b e c
                    (flush_loop st (get_session st c.listener) (m ∷ ms)).0))
        | inr down ↦
            rw (down, flush_queue)
              (λ gone. cc (find-keep_session st b e c (get_session st c.listener)))
      ]

  flush_pending_found :
      (b : Broker W) (e : Endpoint) (c : Context W)
      → find e b.listener_context ≡ some c
      → find e (flush_pending st b e c).listener_context ≢ none
  unfolding flush_pending
  flush_pending_found b e c found =
      flush_queue_found (set_pending b e (pending b e)) e c (pending b e) found

  receive_from_known :
      (b : Broker W) (e : Endpoint) → IsWellFormed b → KnownAt e (receive_from st b e).0
  unfolding receive_from
  receive_from_known b e v = elim (Option-cases (find e b.listener_context)) [
    | inl absent ↦ rw (absent, receive_from) (v.known e)
    | inr (c, found) ↦
        let b' : Broker W = flush_pending st b e c in
        rw (found, receive_from)
          (elim (Option-cases (find e b'.listener_context)) [
            | inl gone ↦ absurd (flush_pending_found b e c found gone)
            | inr (c', there) ↦
                rw (there, receive_from)
                  (λ lost.
                    cc (find-keep_session st b' e c' (get_message (get_session st c'.listener)).0))
          ])
  ]

  set_listener_known :
      (b : Broker W) (e : Endpoint) (c : Context W) (l : Listener W)
      → KnownAt e (set_listener b e c l)
  set_listener_known b e c l gone =
      ground (arith, find-put e e (record c { listener = l }) b.listener_context)

  read_session-IsWellFormed :
      (b : Broker W) (e : Endpoint) (c : Context W) (ec : Bool) (bytes : Bytes)
      (o : Option (Session W))
      → IsWellFormed b
      → IsWellFormed (read_session st b e c ec bytes o)
  read_session-IsWellFormed b e c ec bytes none w = w
  read_session-IsWellFormed b e c ec bytes (some s) w = elim (Bool-cases s.reading) [
    | inl busy ↦
        rw (busy, read_session)
          (IsWellFormed-at e b _ w (keep_session-Others st b e c (on_read s ec bytes))
            (keep_session_known b e c (on_read s ec bytes)))
    | inr idle ↦ rw (idle, read_session) w
  ]

  step-IsWellFormed : (b : Broker W) (v : Event W) → IsWellFormed b → IsWellFormed (step st b v)
  unfolding step
  step-IsWellFormed b (opens e threads) w =
      IsWellFormed-at e b _ w (open_endpoint-Others st b e threads)
        (open_endpoint_known b e threads w)
  step-IsWellFormed b (closes e) w =
      IsWellFormed-at e b _ w (close_endpoint-Others st b e) (close_endpoint_known b e w)
  step-IsWellFormed b (sends e m) w =
      IsWellFormed-at e b _ w (send_to-Others st b e m) (send_to_known b e m w)
  step-IsWellFormed b (receives e) w =
      IsWellFormed-at e b _ w (receive_from-Others st b e) (receive_from_known b e w)
  step-IsWellFormed b (resolved e host r) w = elim (Option-cases (find e b.listener_context)) [
    | inl absent ↦ rw (absent, step) w
    | inr (c, found) ↦ elim (Bool-cases c.listener.resolving) [
      | inl busy ↦
          rw (found, step)
            (simp busy (
              IsWellFormed-at e b _ w (set_listener-Others st b e c _)
                (set_listener_known b e c _)))
      | inr idle ↦ rw (found, step) (simp idle w)
    ]
  ]
  step-IsWellFormed b (reads e ec bytes) w = elim (Option-cases (find e b.listener_context)) [
    | inl absent ↦ rw (absent, step) w
    | inr (c, found) ↦
        rw (found, step) (read_session-IsWellFormed b e c ec bytes c.listener.session w)
  ]

  -- If messages are pending only for endpoints that have a connection, as in a new broker, it stays so
  -- after any sequence of calls and completions: no pending message outlives its connection.
  pub run-IsWellFormed :
      (b : Broker W) (vs : List (Event W)) → IsWellFormed b → IsWellFormed (run st b vs)
  unfolding run
  run-IsWellFormed b [] w = w
  run-IsWellFormed b (v ∷ vs) w = run-IsWellFormed (step st b v) vs (step-IsWellFormed b v w)
