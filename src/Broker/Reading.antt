-- ===== src/Broker/Reading.antt =====
-- The messages in a session that the calls and the reading of the stream leave and take.
use sdl_atf.Common.{
  ℕ, ◌≡◌, refl, ap, ◌∙◌, true, false, some, List, [], ◌∷◌, ◌++◌, Bytes, Bool-cases, inl, inr,
  head_or, drop, if◌then◌else◌,
}
use sdl_atf.Protocol.{success, write_failure}
use sdl_atf.Broker.Table.{Endpoint, find}
use sdl_atf.Broker.Session.{Stream, Session, write_session, get_message, take_front, on_read}
use sdl_atf.Broker.Listener.{get_session}
use sdl_atf.Broker.State.{Context, Broker, pending, set_pending}
use sdl_atf.Broker.Calls.{
  flush_loop, flush_queue, flush_pending, receive_from, send_to, keep_session,
}
use sdl_atf.Broker.Pending.{find-keep_session}
use sdl_atf.Broker.Receiving.{get_message-first, get_message-rest}
use sdl_atf.Broker.System.{step, reads}

module _ {W : Type 0} (st : Stream W) where
  -- The endpoint has a session that reads, with an empty buffer, and `queue` are the messages in it
  -- that have been read and not yet returned.
  pub record Reads (b : Broker W) (e : Endpoint) (queue : List Bytes) : Type 0 where
    pub context : Context W
    pub found : find e b.listener_context ≡ some context
    pub owned : context.listener.session ≡ some (get_session st context.listener)
    pub queued : (get_session st context.listener).msg_queue ≡ queue
    pub buffered : (get_session st context.listener).read_buffer ≡ []
    pub reading : (get_session st context.listener).reading ≡ true

  -- A session that is kept is the endpoint's.
  keep_session-Reads :
      (b : Broker W) (e : Endpoint) (c : Context W) (s : Session W) (queue : List Bytes)
      → s.msg_queue ≡ queue
      → s.read_buffer ≡ []
      → s.reading ≡ true
      → Reads (keep_session st b e c s) e queue
  unfolding get_session
  keep_session-Reads b e c s queue queued buffered reading = record {
    context = record c { listener = record c.listener { session = some s } };
    found = find-keep_session st b e c s;
    owned = refl;
    queued = queued;
    buffered = buffered;
    reading = reading;
  }

  -- The queue of pending messages is another thing.
  set_pending-Reads :
      (b : Broker W) (e : Endpoint) (q queue : List Bytes)
      → Reads b e queue
      → Reads (set_pending b e q) e queue
  set_pending-Reads b e q queue r = record {
    context = r.context;
    found = r.found;
    owned = r.owned;
    queued = r.queued;
    buffered = r.buffered;
    reading = r.reading;
  }

  -- What a flush leaves alone in the session.
  flush_loop_keeps :
      (s : Session W) (ms : List Bytes)
      → ((flush_loop st s ms).0.msg_queue ≡ s.msg_queue)
        × ((flush_loop st s ms).0.read_buffer ≡ s.read_buffer)
        × ((flush_loop st s ms).0.reading ≡ s.reading)
  unfolding flush_loop write_session
  flush_loop_keeps s [] = (refl, refl, refl)
  flush_loop_keeps s (m ∷ ms) =
      let (q, buffer, reading) = flush_loop_keeps (write_session st s m).0 ms in
      elim (Bool-cases (st.write s.ws m).1) [
        | inl e ↦ rw (e, flush_loop) (q, buffer, reading)
        | inr e ↦ rw (e, flush_loop) (refl, refl, refl)
      ]

  abbrev pub session_at :
      {b : Broker W} {e : Endpoint} {queue : List Bytes} → Reads b e queue → Session W
  session_at r = get_session st r.context.listener

  flush_queue-Reads :
      (b : Broker W) (e : Endpoint) (ms queue : List Bytes) (r : Reads b e queue)
      → Reads (flush_queue st b e r.context ms) e queue
  unfolding flush_queue
  flush_queue-Reads b e [] queue r = r
  flush_queue-Reads b e (m ∷ ms) queue r =
      let (q, buffer, reading) = flush_loop_keeps (session_at r) (m ∷ ms) in
      let (s, rest) = flush_loop st (session_at r) (m ∷ ms) in
      elim (Bool-cases (st.is_open (session_at r).ws)) [
        | inl opened ↦
            rw (opened, flush_queue)
              (set_pending-Reads (keep_session st b e r.context s) e rest queue (
                keep_session-Reads b e r.context s queue (q ∙ r.queued) (buffer ∙ r.buffered)
                  (reading ∙ r.reading)))
        | inr shut ↦
            rw (shut, flush_queue)
              (keep_session-Reads b e r.context (session_at r) queue r.queued r.buffered r.reading)
      ]

  flush_pending-Reads :
      (b : Broker W) (e : Endpoint) (queue : List Bytes) (r : Reads b e queue)
      → Reads (flush_pending st b e r.context) e queue
  unfolding flush_pending set_pending-Reads
  flush_pending-Reads b e queue r =
      let q : List Bytes = pending b e in
      flush_queue-Reads (set_pending b e q) e q queue (set_pending-Reads b e q queue r)

  -- What taking a message leaves alone.
  get_message_keeps :
      (s : Session W)
      → ((get_message s).0.read_buffer ≡ s.read_buffer) × ((get_message s).0.reading ≡ s.reading)
  unfolding get_message
  get_message_keeps s = same s s.msg_queue
    where
      same :
          (s : Session W) (q : List Bytes)
          → ((take_front s q).0.read_buffer ≡ s.read_buffer)
            × ((take_front s q).0.reading ≡ s.reading)
      same s [] = (refl, refl)
      same s (m ∷ ms) = (refl, refl)

  -- A session from which a message was taken is the endpoint's again.
  taken-Reads :
      (b : Broker W) (e : Endpoint) (c : Context W) (s : Session W) (queue : List Bytes)
      → s.msg_queue ≡ queue
      → s.read_buffer ≡ []
      → s.reading ≡ true
      → Reads (keep_session st b e c (get_message s).0) e (drop 1 queue)
  taken-Reads b e c s queue queued buffered reading =
      let (buffer, still) = get_message_keeps s in
      keep_session-Reads b e c (get_message s).0 (drop 1 queue)
        (get_message-rest st s ∙ ap (drop 1) queued) (buffer ∙ buffered) (still ∙ reading)

  first_of :
      (s : Session W) (queue : List Bytes)
      → s.msg_queue ≡ queue
      → (get_message s).1 ≡ head_or [] queue
  first_of s queue queued = get_message-first st s ∙ ap (head_or []) queued

  -- `Receive` returns the oldest message, whether the session is open or not.
  pub receive_from-Reads :
      (b : Broker W) (e : Endpoint) (queue : List Bytes)
      → Reads b e queue
      → Reads (receive_from st b e).0 e (drop 1 queue)
        × ((receive_from st b e).1 ≡ head_or [] queue)
        × ((receive_from st b e).2 ≡ success)
  unfolding receive_from
  receive_from-Reads b e queue r =
      let f = flush_pending-Reads b e queue r in
      rw (r.found, receive_from)
        (rw (f.found, receive_from)
          (
            taken-Reads (flush_pending st b e r.context) e f.context (session_at f) queue f.queued
                f.buffered f.reading,
            first_of (session_at f) queue f.queued,
            refl,
          ))

  -- `Send` on an open session takes a message as well, also where its own write fails.
  pub send_to-Reads :
      (b : Broker W) (e : Endpoint) (message : Bytes) (queue : List Bytes) (r : Reads b e queue)
      → st.is_open (session_at r).ws ≡ true
      → Reads (send_to st b e message).0 e (drop 1 queue)
        × ((send_to st b e message).1 ≡ head_or [] queue)
        × ((send_to st b e message).2
            ≡ (if (st.write (session_at r).ws message).1 then success else write_failure))
  unfolding send_to write_session
  send_to-Reads b e message queue r opened =
      let s : Session W = (write_session st (session_at r) message).0 in
      rw (r.found, send_to)
        (rw (opened, send_to)
          (
            taken-Reads b e r.context s queue r.queued r.buffered r.reading,
            first_of s queue r.queued,
            refl,
          ))

  -- On another session it takes none.
  pub send_to_shut-Reads :
      (b : Broker W) (e : Endpoint) (message : Bytes) (queue : List Bytes) (r : Reads b e queue)
      → st.is_open (session_at r).ws ≡ false
      → Reads (send_to st b e message).0 e queue × ((send_to st b e message).2 ≡ write_failure)
  unfolding send_to
  send_to_shut-Reads b e message queue r shut =
      rw (r.found, send_to)
        (rw (shut, send_to)
          (
            set_pending-Reads (keep_session st b e r.context (session_at r)) e
                (pending b e ++ message ∷ []) queue
                (keep_session-Reads b e r.context (session_at r) queue r.queued r.buffered
                  r.reading),
            refl,
          ))

  -- A message that is read goes behind the others.
  pub reads-Reads :
      (b : Broker W) (e : Endpoint) (c : ℕ) (cs : Bytes) (queue : List Bytes)
      → Reads b e queue
      → Reads (step st b (reads e false (c ∷ cs))) e (queue ++ (c ∷ cs) ∷ [])
  unfolding step on_read
  reads-Reads b e c cs queue r =
      let s : Session W = on_read (session_at r) false (c ∷ cs) in
      rw (r.found, step)
        (rw (r.owned, step)
          (rw (r.reading, step)
            (keep_session-Reads b e r.context s (queue ++ (c ∷ cs) ∷ [])
              (rw r.buffered (ap (λ q. q ++ (c ∷ cs) ∷ []) r.queued)) (rw r.buffered refl)
              (rw r.buffered refl))))

  -- An empty one is dropped.
  pub reads_empty-Reads :
      (b : Broker W) (e : Endpoint) (queue : List Bytes)
      → Reads b e queue
      → Reads (step st b (reads e false [])) e queue
  unfolding step on_read
  reads_empty-Reads b e queue r =
      let s : Session W = on_read (session_at r) false [] in
      rw (r.found, step)
        (rw (r.owned, step)
          (rw (r.reading, step)
            (keep_session-Reads b e r.context s queue (rw r.buffered r.queued) (rw r.buffered refl)
              (rw r.buffered refl))))
