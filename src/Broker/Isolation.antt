-- ===== src/Broker/Isolation.antt =====
-- No call touches the entries of another endpoint.
use sdl_atf.Common.{
  ◌≡◌, refl, ◌∙◌, ℤ, false, some, List, [], ◌∷◌, Bytes, arith, Bool-cases, Option-cases, inl, inr,
}
use sdl_atf.Broker.Table.{Endpoint, find, put, find-put, find-erase, ep_eq}
use sdl_atf.Broker.Session.{Stream, Session, get_message}
use sdl_atf.Broker.Listener.{Listener, get_session}
use sdl_atf.Broker.State.{Context, Broker, pending, set_pending, set_listener}
use sdl_atf.Broker.Calls.{
  close_endpoint, close_if_open, open_new, open_endpoint, new_context, send_to, receive_from,
  flush_queue, flush_pending, keep_session, flush_loop,
}
use sdl_atf.Broker.Connections.{fresh}

module _ {W : Type 0} where
  -- The entries of every other endpoint are the same.
  abbrev pub Others : Endpoint → Broker W → Broker W → Type 0
  Others e b b' =
      (j : Endpoint)
      → ep_eq e j ≡ false
      → (find j b'.listener_context ≡ find j b.listener_context)
        × (find j b'.msg_queue ≡ find j b.msg_queue)

module _ {W : Type 0} (st : Stream W) where
  pub close_endpoint-Others : (b : Broker W) (e : Endpoint) → Others e b (close_endpoint st b e).0
  unfolding close_endpoint
  close_endpoint-Others b e j ne = (
    ground (arith, find-erase e j b.listener_context),
    ground (arith, find-erase e j b.msg_queue),
  )

  close_if_open-Others : (b : Broker W) (e : Endpoint) → Others e b (close_if_open st b e)
  unfolding close_if_open
  close_if_open-Others b e j ne = elim (Option-cases (find e b.listener_context)) [
    | inl absent ↦ rw (absent, close_if_open) (refl, refl)
    | inr (c, found) ↦ rw (found, close_if_open) (close_endpoint-Others b e j ne)
  ]

  open_new-Others :
      (b : Broker W) (e : Endpoint) (threads : ℤ) → Others e b (open_new st b e threads).0
  unfolding open_new
  open_new-Others b e threads j ne = (
    ground (
      arith,
      find-put e j (fresh threads) (put e new_context b.listener_context),
      find-put e j new_context b.listener_context,
    ),
    ground arith,
  )

  pub open_endpoint-Others :
      (b : Broker W) (e : Endpoint) (threads : ℤ) → Others e b (open_endpoint st b e threads).0
  unfolding open_endpoint
  open_endpoint-Others b e threads j ne =
      let (p, q) = close_if_open-Others b e j ne in
      let (r, s) = open_new-Others (close_if_open st b e) e threads j ne in (r ∙ p, s ∙ q)

  pub keep_session-Others :
      (b : Broker W) (e : Endpoint) (c : Context W) (s : Session W)
      → Others e b (keep_session st b e c s)
  keep_session-Others b e c s j ne = (
    ground (
      arith,
      find-put e j (record c { listener = record c.listener { session = some s } })
          b.listener_context,
    ),
    refl,
  )

  set_pending-Others :
      (b : Broker W) (e : Endpoint) (q : List Bytes) → Others e b (set_pending b e q)
  set_pending-Others b e q j ne = (refl, ground (arith, find-put e j q b.msg_queue))

  keep_set-Others :
      (b : Broker W) (e : Endpoint) (c : Context W) (s : Session W) (q : List Bytes)
      → Others e b (set_pending (keep_session st b e c s) e q)
  keep_set-Others b e c s q j ne =
      ((keep_session-Others b e c s j ne).0, (set_pending-Others b e q j ne).1)

  pub send_to-Others : (b : Broker W) (e : Endpoint) (m : Bytes) → Others e b (send_to st b e m).0
  unfolding send_to
  send_to-Others b e m j ne = elim (Option-cases (find e b.listener_context)) [
    | inl absent ↦ rw (absent, send_to) (refl, refl)
    | inr (c, found) ↦ elim (Bool-cases (st.is_open (get_session st c.listener).ws)) [
      | inl up ↦ rw (found, send_to) (rw (up, send_to) (keep_session-Others b e c _ j ne))
      | inr down ↦
          rw (found, send_to)
            (rw (down, send_to) (keep_set-Others b e c (get_session st c.listener) _ j ne))
    ]
  ]

  flush_queue-Others :
      (b : Broker W) (e : Endpoint) (c : Context W) (q : List Bytes)
      → Others e b (flush_queue st b e c q)
  unfolding flush_queue
  flush_queue-Others b e c [] j ne = (refl, refl)
  flush_queue-Others b e c (m ∷ ms) j ne =
      elim (Bool-cases (st.is_open (get_session st c.listener).ws)) [
        | inl up ↦
            rw (up, flush_queue)
              (keep_set-Others b e c (flush_loop st (get_session st c.listener) (m ∷ ms)).0 _ j ne)
        | inr down ↦ rw (down, flush_queue) (keep_session-Others b e c _ j ne)
      ]

  pub receive_from-Others : (b : Broker W) (e : Endpoint) → Others e b (receive_from st b e).0
  unfolding receive_from flush_pending
  receive_from-Others b e j ne = elim (Option-cases (find e b.listener_context)) [
    | inl absent ↦ rw (absent, receive_from) (refl, refl)
    | inr (c, found) ↦
        let b' : Broker W = flush_pending st b e c in
        let (p, q) = set_pending-Others b e (pending b e) j ne in
        let (p', q') = flush_queue-Others (set_pending b e (pending b e)) e c (pending b e) j ne in
        rw (found, receive_from)
          (elim (Option-cases (find e b'.listener_context)) [
            | inl gone ↦ rw (gone, receive_from) (p' ∙ p, q' ∙ q)
            | inr (c', there) ↦
                let s : Session W = (get_message (get_session st c'.listener)).0 in
                let (r, _) = keep_session-Others b' e c' s j ne in
                rw (there, receive_from) (r ∙ p' ∙ p, q' ∙ q)
          ])
  ]

  pub set_listener-Others :
      (b : Broker W) (e : Endpoint) (c : Context W) (l : Listener W)
      → Others e b (set_listener b e c l)
  set_listener-Others b e c l j ne =
      (ground (arith, find-put e j (record c { listener = l }) b.listener_context), refl)
