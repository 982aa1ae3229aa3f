-- ===== src/Broker/System/Delivery.antt =====
-- What is sent before the connection is there is written once it is.
use sdl_atf.Common.{
  ◌≡◌, refl, sym, ◌∙◌, ℤ, true, false, none, some, List, [], ◌∷◌, ◌++◌, Bytes, arith,
}
use mathlib.Core.Path.{subst}
use sdl_atf.Broker.Table.{Endpoint, find, find-put}
use sdl_atf.Broker.Session.{Stream, run_session}
use sdl_atf.Broker.Listener.{Listener, connected, run_listener, do_resolve, on_resolve, get_session}
use sdl_atf.Broker.State.{Context, Broker, pending, set_listener}
use sdl_atf.Broker.Calls.{open_endpoint}
use sdl_atf.Broker.Pending.{Holds}
use sdl_atf.Broker.Receiving.{receive_from-Received}
use sdl_atf.Broker.Connections.{fresh, open_endpoint_lem}
use sdl_atf.Broker.System.{Event, opens, receives, resolved, step, run}
use sdl_atf.Broker.System.Elsewhere.{spares, run-spares}
use sdl_atf.Broker.System.Waiting.{keeps_waiting, sent_to, Waiting, run-Waiting}

-- A connection is opened; `xs` happens while its address is being resolved; then it comes up over the
-- stream `w`; `ys` happens; and Receive is called.
abbrev pub early :
    {W : Type 0} → Endpoint → ℤ → List (Event W) → Bytes → W → List (Event W) → List (Event W)
early e threads xs host w ys =
    opens e threads ∷ (xs ++ resolved e host (connected w) ∷ (ys ++ receives e ∷ []))

module _ {W : Type 0} (st : Stream W) where
  run-append :
      (b : Broker W) (xs ys : List (Event W)) → run st b (xs ++ ys) ≡ run st (run st b xs) ys
  unfolding run
  run-append b [] ys = refl
  run-append b (x ∷ xs) ys = run-append (step st b x) xs ys

  open_endpoint-Waiting :
      (b : Broker W) (e : Endpoint) (threads : ℤ)
      → (find e b.listener_context ≡ none → find e b.msg_queue ≡ none)
      → st.is_open st.unconnected ≡ false
      → Waiting st (open_endpoint st b e threads).0 e []
  unfolding run_listener do_resolve get_session
  open_endpoint-Waiting b e threads only dummy =
      let (_, found, none_pending) = open_endpoint_lem st b e threads only in
      record {
        context = fresh threads;
        found = found;
        busy = refl;
        shut = dummy;
        idle = refl;
        queue = none_pending;
      }

  -- Receive on an endpoint with a given context and queue.
  received :
      (b : Broker W) (e : Endpoint) (c : Context W) (q : List Bytes)
      → find e b.listener_context ≡ some c
      → pending b e ≡ q
      → st.is_open (get_session st c.listener).ws ≡ true
      → (get_session st c.listener).msg_queue ≡ []
      → Holds st (run st b (receives e ∷ [])) e (get_session st c.listener).ws q []
  unfolding run step
  received b e c q found queue up empty =
      rw queue at (rw empty at (receive_from-Received st b e c found up).holds)

  come_up :
      (b : Broker W) (e : Endpoint) (q : List Bytes) (host : Bytes) (w : W) (ys : List (Event W))
      → st.is_open (st.handshake w host).0 ≡ true
      → spares e ys ≡ true
      → Waiting st b e q
      → Holds st
          (run st b (resolved e host (connected w) ∷ (ys ++ receives e ∷ [])))
          e
          (st.handshake w host).0
          q
          []
  unfolding run step on_resolve run_session get_session
  come_up b e q host w ys up elsewhere v =
      let l : Listener W = on_resolve st host v.context.listener (connected w) in
      let c : Context W = record v.context { listener = l } in
      let b1 : Broker W = set_listener b e v.context l in
      let there : find e b1.listener_context ≡ some c =
        ground (arith, find-put e e c b.listener_context) in
      let (same, same_queue) = run-spares st b1 e ys elsewhere in
      let done : step st b (resolved e host (connected w)) ≡ b1 =
        rw (v.found, step) (rw (v.busy, step) refl) in
      subst (λ b'. Holds st (run st b' (ys ++ receives e ∷ [])) e (st.handshake w host).0 q [])
        (sym done)
        (rw (run-append b1 ys (receives e ∷ []))
          (received (run st b1 ys) e c q (same ∙ there) (rw (pending, same_queue) v.queue) up refl))

  -- Messages that are sent after OpenConnection and before the connection is there are not lost.
  -- Between the two anything may happen, as often as it likes, but that the endpoint is opened again or
  -- closed, or its resolution fails: Receives of the endpoint, connections that fail and are tried
  -- again, and whatever concerns other endpoints; and behind the connection whatever concerns other
  -- endpoints. The first Receive of the endpoint after that writes the messages to the new stream in
  -- the order in which they were sent, all of them or up to the first write that fails, and those
  -- behind it stay pending. Messages are to be pending before OpenConnection only for connections that
  -- are there; a stream over a socket that was never connected is not open; and the new stream is open
  -- behind its handshake.
  pub early-Holds :
      (b : Broker W) (e : Endpoint) (threads : ℤ) (xs : List (Event W)) (host : Bytes) (w : W)
      (ys : List (Event W))
      → keeps_waiting e xs ≡ true
      → spares e ys ≡ true
      → (find e b.listener_context ≡ none → find e b.msg_queue ≡ none)
      → st.is_open st.unconnected ≡ false
      → st.is_open (st.handshake w host).0 ≡ true
      → Holds st
          (run st b (early e threads xs host w ys))
          e
          (st.handshake w host).0
          (sent_to e xs)
          []
  unfolding run step
  early-Holds b e threads xs host w ys waits elsewhere only dummy up =
      let b1 : Broker W = (open_endpoint st b e threads).0 in
      let v = run-Waiting st b1 e [] xs waits (open_endpoint-Waiting b e threads only dummy) in
      rw (run-append b1 xs (resolved e host (connected w) ∷ (ys ++ receives e ∷ [])))
        (come_up (run st b1 xs) e (sent_to e xs) host w ys up elsewhere v)
