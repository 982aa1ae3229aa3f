-- ===== src/Broker/Receiving.antt =====
-- `Receive` and `Send` on an endpoint whose session is open.
use sdl_atf.Common.{
  ◌≡◌, refl, ap, ◌∙◌, ℤ, true, false, some, List, [], ◌∷◌, ◌++◌, Bytes, if◌then◌else◌, head_or,
  drop,
}
use sdl_atf.Protocol.{success, write_failure}
use sdl_atf.Broker.Table.{Endpoint, find}
use sdl_atf.Broker.Session.{Stream, Session, write_session, get_message, take_front}
use sdl_atf.Broker.Listener.{get_session}
use sdl_atf.Broker.State.{Context, Broker, pending}
use sdl_atf.Broker.Calls.{flush_pending, receive_from, send_to, keep_session}
use sdl_atf.Broker.Pending.{Holds, pending-set_pending, find-keep_session, flush_pending-Holds}

module _ {W : Type 0} (st : Stream W) where
  pub get_message-first : (s : Session W) → (get_message s).1 ≡ head_or [] s.msg_queue
  unfolding get_message
  get_message-first s = first s s.msg_queue
    where
      first : (s : Session W) (q : List Bytes) → (take_front s q).1 ≡ head_or [] q
      first s [] = refl
      first s (m ∷ ms) = refl

  pub get_message-rest : (s : Session W) → (get_message s).0.msg_queue ≡ drop 1 s.msg_queue
  unfolding get_message
  get_message-rest s = rest s s.msg_queue refl
    where
      rest :
          (s : Session W) (q : List Bytes)
          → s.msg_queue ≡ q
          → (take_front s q).0.msg_queue ≡ drop 1 q
      rest s [] e = e
      rest s (m ∷ ms) e = refl

  get_message-ws : (s : Session W) → (get_message s).0.ws ≡ s.ws
  unfolding get_message
  get_message-ws s = same s s.msg_queue
    where
      same : (s : Session W) (q : List Bytes) → (take_front s q).0.ws ≡ s.ws
      same s [] = refl
      same s (m ∷ ms) = refl

  -- A call on the endpoint that wrote what it could of `queue` and took the first of `messages`.
  pub record Received (b : Broker W) (e : Endpoint) (w : W) (queue messages : List Bytes)
      (r : Broker W × Bytes × ℤ) : Type 0 where
    pub message : r.1 ≡ head_or [] messages
    pub code : r.2 ≡ success
    pub holds : Holds st r.0 e w queue (drop 1 messages)

  -- Receive on a connection whose session is open writes the pending messages to the stream in the
  -- order in which they were sent, up to the first write that fails, and keeps that message and those
  -- behind it; it returns the oldest message that has been read and not yet returned, or the empty
  -- text if there is none, with SUCCESS, and leaves the later ones.
  pub receive_from-Received :
      (b : Broker W) (e : Endpoint) (c : Context W)
      → find e b.listener_context ≡ some c
      → st.is_open (get_session st c.listener).ws ≡ true
      → Received b e
          (get_session st c.listener).ws
          (pending b e)
          (get_session st c.listener).msg_queue
          (receive_from st b e)
  unfolding receive_from get_session
  receive_from-Received b e c found open_s =
      let h = flush_pending-Holds st b e c found open_s in
      let s : Session W = get_session st h.context.listener in
      let f = h.flushed in
      rw (found, receive_from)
        (rw (h.found, receive_from)
          (record {
            message = get_message-first s ∙ ap (head_or []) h.queued;
            code = refl;
            holds = record {
              context = record h.context {
                listener = record h.context.listener { session = some (get_message s).0 };
              };
              found = find-keep_session st (flush_pending st b e c) e h.context (get_message s).0;
              queued = get_message-rest s ∙ ap (drop 1) h.queued;
              flushed = record {
                sent = f.sent;
                splits = f.splits;
                written = f.written;
                blocked = f.blocked;
                stream = get_message-ws s ∙ f.stream;
              };
            };
          }))

  -- What `Send` does on a connection whose session is open: one write of the new message.
  pub record SentNow (b : Broker W) (e : Endpoint) (s : Session W) (message : Bytes)
      (r : Broker W × Bytes × ℤ) : Type 0 where
    pub context : Context W
    pub found : find e r.0.listener_context ≡ some context
    pub wrote : (get_session st context.listener).ws ≡ (st.write s.ws message).0
    pub left : (get_session st context.listener).msg_queue ≡ drop 1 s.msg_queue
    pub result : r.1 ≡ head_or [] s.msg_queue
    pub code : r.2 ≡ (if (st.write s.ws message).1 then success else write_failure)
    pub still_pending : pending r.0 e ≡ pending b e

  -- Send on a connection whose session is open writes the message once, before any that is pending,
  -- and leaves the pending ones; it takes the oldest message read, if there is one, off the session's
  -- queue and returns it, with SUCCESS or WRITE_FAILURE as the write went.
  pub send_to-SentNow :
      (b : Broker W) (e : Endpoint) (c : Context W) (message : Bytes)
      → find e b.listener_context ≡ some c
      → st.is_open (get_session st c.listener).ws ≡ true
      → SentNow b e (get_session st c.listener) message (send_to st b e message)
  unfolding send_to get_session write_session
  send_to-SentNow b e c message found open_s =
      let s : Session W = (write_session st (get_session st c.listener) message).0 in
      rw (found, send_to)
        (rw (open_s, send_to)
          (record {
            context = record c {
              listener = record c.listener { session = some (get_message s).0 };
            };
            found = find-keep_session st b e c (get_message s).0;
            wrote = get_message-ws s;
            left = get_message-rest s;
            result = get_message-first s;
            code = refl;
            still_pending = refl;
          }))

  -- Send on a connection whose session is not open, or does not exist yet, returns WRITE_FAILURE and
  -- no message, and puts the message behind those that are pending.
  pub send_to_closed :
      (b : Broker W) (e : Endpoint) (c : Context W) (message : Bytes)
      → find e b.listener_context ≡ some c
      → st.is_open (get_session st c.listener).ws ≡ false
      → ((send_to st b e message).1 ≡ [])
        × ((send_to st b e message).2 ≡ write_failure)
        × (pending (send_to st b e message).0 e ≡ pending b e ++ message ∷ [])
  unfolding send_to
  send_to_closed b e c message found shut =
      rw (found, send_to)
        (rw (shut, send_to)
          (
            refl,
            refl,
            pending-set_pending st (keep_session st b e c (get_session st c.listener)) e
                (pending b e ++ message ∷ []),
          ))
