-- ===== src/Broker/System/Waiting.antt =====
-- A connection whose address is being resolved, while anything else happens to the broker.
use sdl_atf.Common.{
  Option, ◌≡◌, refl, ap, sym, ◌∙◌, Bool, true, false, ◌&&◌, none, some, List, [], ◌∷◌, ◌++◌, Bytes,
  arith, append-nil, append_assoc, Bool-cases, inl, inr, if◌then◌else◌,
}
use mathlib.Core.Path.{subst}
use sdl_atf.Broker.Table.{Endpoint, find, find-put, ep_eq, ep_eq_iff}
use sdl_atf.Broker.Session.{Stream, Session, get_message, take_front}
use sdl_atf.Broker.Listener.{
  Listener, Resolved, resolve_error, connect_error, connected, do_resolve, on_resolve, get_session,
}
use sdl_atf.Broker.State.{Context, Broker, pending, set_pending}
use sdl_atf.Broker.Calls.{
  send_to, receive_from, receive_next, flush_queue, flush_pending, keep_session,
}
use sdl_atf.Broker.Pending.{find-keep_session, pending-set_pending}
use sdl_atf.Broker.System.{
  Event, opens, closes, sends, receives, resolved, reads, read_session, step, run,
}
use sdl_atf.Broker.System.Elsewhere.{endpoint_of, step-Others}

-- The connection fails, and the address is resolved anew.
abbrev retries : {W : Type 0} → Resolved W → Bool
retries resolve_error = false
retries (connect_error still_open) = true
retries (connected w) = false

-- No event of the endpoint itself ends its waiting.
abbrev stays : {W : Type 0} → Event W → Bool
stays (opens e threads) = false
stays (closes e) = false
stays (sends e m) = true
stays (receives e) = true
stays (resolved e host r) = retries r
stays (reads e ec bytes) = true

-- The endpoint is neither opened nor closed, no resolution of its address fails, and no connection of
-- it succeeds.
abbrev pub keeps_waiting : {W : Type 0} → Endpoint → List (Event W) → Bool
keeps_waiting e [] = true
keeps_waiting e (x ∷ xs) = (if ep_eq (endpoint_of x) e then stays x else true) && keeps_waiting e xs

abbrev message_of : {W : Type 0} → Event W → List Bytes
message_of (sends e m) = m ∷ []
message_of _ = []

-- The messages that are sent to the endpoint.
abbrev pub sent_to : {W : Type 0} → Endpoint → List (Event W) → List Bytes
sent_to e [] = []
sent_to e (x ∷ xs) = (if ep_eq (endpoint_of x) e then message_of x else []) ++ sent_to e xs

module _ {W : Type 0} (st : Stream W) where
  -- The address is being resolved, no session is open or reads, and these messages are pending.
  pub record Waiting (b : Broker W) (e : Endpoint) (q : List Bytes) : Type 0 where
    pub context : Context W
    pub found : find e b.listener_context ≡ some context
    pub busy : context.listener.resolving ≡ true
    pub shut : st.is_open (get_session st context.listener).ws ≡ false
    pub idle : (get_session st context.listener).reading ≡ false
    pub queue : pending b e ≡ q

  keep_session-Waiting :
      (b : Broker W) (e : Endpoint) (q : List Bytes) (v : Waiting b e q) (s : Session W)
      → st.is_open s.ws ≡ false
      → s.reading ≡ false
      → Waiting (keep_session st b e v.context s) e q
  unfolding get_session
  keep_session-Waiting b e q v s shut idle = record {
    context = record v.context { listener = record v.context.listener { session = some s } };
    found = find-keep_session st b e v.context s;
    busy = v.busy;
    shut = shut;
    idle = idle;
    queue = v.queue;
  }

  set_pending-Waiting :
      (b : Broker W) (e : Endpoint) (q q' : List Bytes)
      → Waiting b e q
      → Waiting (set_pending b e q') e q'
  set_pending-Waiting b e q q' v = record {
    context = v.context;
    found = v.found;
    busy = v.busy;
    shut = v.shut;
    idle = v.idle;
    queue = pending-set_pending st b e q';
  }

  send_to-Waiting :
      (b : Broker W) (e : Endpoint) (q : List Bytes) (m : Bytes)
      → Waiting b e q
      → Waiting (send_to st b e m).0 e (q ++ m ∷ [])
  unfolding send_to
  send_to-Waiting b e q m v =
      let kept = keep_session-Waiting b e q v (get_session st v.context.listener) v.shut v.idle in
      rw (v.found, send_to)
        (rw (v.shut, send_to)
          (rw v.queue (
            set_pending-Waiting (keep_session st b e v.context (get_session st v.context.listener))
              e q (q ++ m ∷ []) kept)))

  flush_queue-Waiting :
      (b : Broker W) (e : Endpoint) (q q' : List Bytes) (v : Waiting b e q)
      → Waiting (flush_queue st b e v.context q') e q
  unfolding flush_queue
  flush_queue-Waiting b e q [] v = v
  flush_queue-Waiting b e q (m ∷ ms) v =
      rw (v.shut, flush_queue)
        (keep_session-Waiting b e q v (get_session st v.context.listener) v.shut v.idle)

  -- Taking a message off the session leaves its stream and its reading.
  get_message_same :
      (s : Session W) → ((get_message s).0.ws ≡ s.ws) × ((get_message s).0.reading ≡ s.reading)
  unfolding get_message
  get_message_same s = same s s.msg_queue
    where
      same :
          (s : Session W) (q : List Bytes)
          → ((take_front s q).0.ws ≡ s.ws) × ((take_front s q).0.reading ≡ s.reading)
      same s [] = (refl, refl)
      same s (m ∷ ms) = (refl, refl)

  receive_next-Waiting :
      (b : Broker W) (e : Endpoint) (q : List Bytes)
      → Waiting b e q
      → Waiting (receive_next st b e (find e b.listener_context)).0 e q
  receive_next-Waiting b e q v =
      let s : Session W = get_session st v.context.listener in
      let (stream, reading_lem) = get_message_same s in
      rw v.found (
        keep_session-Waiting b e q v (get_message s).0 (ap st.is_open stream ∙ v.shut)
          (reading_lem ∙ v.idle))

  receive_from-Waiting :
      (b : Broker W) (e : Endpoint) (q : List Bytes)
      → Waiting b e q
      → Waiting (receive_from st b e).0 e q
  unfolding receive_from flush_pending
  receive_from-Waiting b e q v =
      let b1 : Broker W = set_pending b e (pending b e) in
      let v1 : Waiting b1 e (pending b e) = record {
        context = v.context;
        found = v.found;
        busy = v.busy;
        shut = v.shut;
        idle = v.idle;
        queue = pending-set_pending st b e (pending b e);
      } in
      let b2 : Broker W = flush_queue st b1 e v.context (pending b e) in
      rw (v.found, receive_from)
        (subst (Waiting _ e) v.queue (
          receive_next-Waiting b2 e (pending b e)
            (flush_queue-Waiting b1 e (pending b e) (pending b e) v1)))

  connect_error-Waiting :
      (b : Broker W) (e : Endpoint) (q : List Bytes) (host : Bytes) (still_open : Bool)
      → Waiting b e q
      → Waiting (step st b (resolved e host (connect_error still_open))) e q
  unfolding step on_resolve do_resolve get_session
  connect_error-Waiting b e q host still_open v =
      let l : Listener W = on_resolve st host v.context.listener (connect_error still_open) in
      rw (v.found, step)
        (rw (v.busy, step)
          (record {
            context = record v.context { listener = l };
            found =
                ground (arith, find-put e e (record v.context { listener = l }) b.listener_context);
            busy = refl;
            shut = v.shut;
            idle = v.idle;
            queue = v.queue;
          }))

  reads-Waiting :
      (b : Broker W) (e : Endpoint) (q : List Bytes) (ec : Bool) (bytes : Bytes)
      → Waiting b e q
      → Waiting (step st b (reads e ec bytes)) e q
  unfolding step get_session
  reads-Waiting b e q ec bytes v =
      rw (v.found, step)
        (subst (λ b'. Waiting b' e q) (sym (left v.context.listener.session v.idle)) v)
    where
      left :
          (o : Option (Session W))
          → (get_session st (record v.context.listener { session = o })).reading ≡ false
          → read_session st b e v.context ec bytes o ≡ b
      left none h = refl
      left (some s) h = rw (h, read_session) refl

  -- An event of another endpoint.
  other-Waiting :
      (b : Broker W) (e : Endpoint) (q : List Bytes) (x : Event W)
      → ep_eq (endpoint_of x) e ≡ false
      → Waiting b e q
      → Waiting (step st b x) e q
  other-Waiting b e q x ne v =
      let (same, same_queue) = step-Others st b x e ne in
      record {
        context = v.context;
        found = same ∙ v.found;
        busy = v.busy;
        shut = v.shut;
        idle = v.idle;
        queue = rw (pending, same_queue) v.queue;
      }

  own-Waiting :
      (b : Broker W) (q : List Bytes) (x : Event W)
      → stays x ≡ true
      → Waiting b (endpoint_of x) q
      → Waiting (step st b x) (endpoint_of x) (q ++ message_of x)
  unfolding step
  own-Waiting b q (opens e threads) h v = cc
  own-Waiting b q (closes e) h v = cc
  own-Waiting b q (sends e m) h v = send_to-Waiting b e q m v
  own-Waiting b q (receives e) h v = rw (append-nil q) (receive_from-Waiting b e q v)
  own-Waiting b q (resolved e host resolve_error) h v = cc
  own-Waiting b q (resolved e host (connect_error still_open)) h v =
      rw (append-nil q) (connect_error-Waiting b e q host still_open v)
  own-Waiting b q (resolved e host (connected w)) h v = cc
  own-Waiting b q (reads e ec bytes) h v = rw (append-nil q) (reads-Waiting b e q ec bytes v)

  step-Waiting :
      (b : Broker W) (e : Endpoint) (q : List Bytes) (x : Event W)
      → (if ep_eq (endpoint_of x) e then stays x else true) ≡ true
      → Waiting b e q
      → Waiting (step st b x) e (q ++ (if ep_eq (endpoint_of x) e then message_of x else []))
  step-Waiting b e q x h v = elim (Bool-cases (ep_eq (endpoint_of x) e)) [
    | inl own ↦
        let same : endpoint_of x ≡ e = (ep_eq_iff (endpoint_of x) e).0 own in
        rw own (
          subst (λ k. Waiting (step st b x) k (q ++ message_of x)) same
            (own-Waiting b q x (rw own at h) (subst (λ k. Waiting b k q) (sym same) v)))
    | inr other ↦ rw other (rw (append-nil q) (other-Waiting b e q x other v))
  ]

  -- While the connection keeps waiting, what is sent to it is put behind what is pending.
  pub run-Waiting :
      (b : Broker W) (e : Endpoint) (q : List Bytes) (xs : List (Event W))
      → keeps_waiting e xs ≡ true
      → Waiting b e q
      → Waiting (run st b xs) e (q ++ sent_to e xs)
  unfolding run
  run-Waiting b e q [] h v = rw (append-nil q) v
  run-Waiting b e q (x ∷ xs) h v =
      let ms : List Bytes = if ep_eq (endpoint_of x) e then message_of x else [] in
      rw (append_assoc q ms (sent_to e xs)) at (
        run-Waiting (step st b x) e (q ++ ms) xs (ground arith)
          (step-Waiting b e q x (ground arith) v))
