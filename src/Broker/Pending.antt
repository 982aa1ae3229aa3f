-- ===== src/Broker/Pending.antt =====
-- What `FlushPendingMsg` writes, and what `Receive` returns.
use sdl_atf.Common.{
  ◌≡◌, refl, ap, true, false, some, List, [], ◌∷◌, ◌++◌, Bytes, arith, Bool-cases, inl, inr,
}
use sdl_atf.Broker.Table.{Endpoint, find, find-put}
use sdl_atf.Broker.Session.{Stream, Session, write_session}
use sdl_atf.Broker.Listener.{get_session}
use sdl_atf.Broker.State.{Context, Broker, pending, set_pending}
use sdl_atf.Broker.Calls.{flush_loop, flush_queue, flush_pending, keep_session}

module _ {W : Type 0} (st : Stream W) where
  -- The stream after the writes of some messages.
  pub write_all : W → List Bytes → W
  write_all w [] = w
  write_all w (m ∷ ms) = write_all (st.write w m).0 ms

  -- None of these writes fails.
  abbrev pub AllWritten : W → List Bytes → Type 0
  AllWritten w [] = Unit {0}
  AllWritten w (m ∷ ms) = ((st.write w m).1 ≡ true) × AllWritten (st.write w m).0 ms

  -- The write of the first of these messages fails.
  abbrev pub IsBlocked : W → List Bytes → Type 0
  IsBlocked w [] = Unit {0}
  IsBlocked w (m ∷ ms) = (st.write w m).1 ≡ false

  -- The stream after the write that was refused, if there was one.
  abbrev pub refused : W → List Bytes → W
  refused w [] = w
  refused w (m ∷ ms) = (st.write w m).0

  -- `queue` splits into what was written, in order, and `rest`, whose first message was refused; and
  -- these writes, and no others, took the stream from `w` to `w'`.
  pub record Flushed (w : W) (queue rest : List Bytes) (w' : W) : Type 0 where
    pub sent : List Bytes
    pub splits : queue ≡ sent ++ rest
    pub written : AllWritten w sent
    pub blocked : IsBlocked (write_all w sent) rest
    pub stream : w' ≡ refused (write_all w sent) rest

  pub flush_loop-Flushed :
      (s : Session W) (queue : List Bytes)
      → Flushed s.ws queue (flush_loop st s queue).1 (flush_loop st s queue).0.ws
  unfolding flush_loop write_session write_all
  flush_loop-Flushed s [] = record {
    sent = [];
    splits = refl;
    written = tt;
    blocked = tt;
    stream = refl;
  }
  flush_loop-Flushed s (m ∷ ms) = elim (Bool-cases (st.write s.ws m).1) [
    | inl e ↦
        let f = flush_loop-Flushed (write_session st s m).0 ms in
        rw (e, flush_loop)
          (record {
            sent = m ∷ f.sent;
            splits = ap (◌∷◌ m) f.splits;
            written = (e, f.written);
            blocked = f.blocked;
            stream = f.stream;
          })
    | inr e ↦
        rw (e, flush_loop)
          (record { sent = []; splits = refl; written = tt; blocked = e; stream = refl })
  ]

  pub flush_loop-msg_queue :
      (s : Session W) (queue : List Bytes) → (flush_loop st s queue).0.msg_queue ≡ s.msg_queue
  unfolding flush_loop write_session
  flush_loop-msg_queue s [] = refl
  flush_loop-msg_queue s (m ∷ ms) = ground (arith, flush_loop-msg_queue (write_session st s m).0 ms)

  pub pending-set_pending :
      (b : Broker W) (e : Endpoint) (q : List Bytes) → pending (set_pending b e q) e ≡ q
  pending-set_pending b e q = ground (arith, find-put e e q b.msg_queue)

  pub find-keep_session :
      (b : Broker W) (e : Endpoint) (c : Context W) (s : Session W)
      → find e (keep_session st b e c s).listener_context
        ≡ some (record c { listener = record c.listener { session = some s } })
  find-keep_session b e c s = ground (
    arith,
    find-put e e (record c { listener = record c.listener { session = some s } })
        b.listener_context,
  )

  -- The session of the endpoint has written what it could of `queue` to a stream that was `w`, and
  -- the messages in it that are to be returned are these.
  pub record Holds (b : Broker W) (e : Endpoint) (w : W) (queue messages : List Bytes)
      : Type 0 where
    pub context : Context W
    pub found : find e b.listener_context ≡ some context
    pub queued : (get_session st context.listener).msg_queue ≡ messages
    pub flushed : Flushed w queue (pending b e) (get_session st context.listener).ws

  flush_queue-Holds :
      (b : Broker W) (e : Endpoint) (c : Context W) (q : List Bytes)
      → pending b e ≡ q
      → find e b.listener_context ≡ some c
      → st.is_open (get_session st c.listener).ws ≡ true
      → Holds
          (flush_queue st b e c q)
          e
          (get_session st c.listener).ws
          q
          (get_session st c.listener).msg_queue
  unfolding flush_queue get_session write_all
  flush_queue-Holds b e c [] h found open_s = record {
    context = c;
    found = found;
    queued = refl;
    flushed = rw h (record { sent = []; splits = refl; written = tt; blocked = tt; stream = refl });
  }
  flush_queue-Holds b e c (m ∷ ms) h found open_s =
      let s : Session W = get_session st c.listener in
      let s' : Session W = (flush_loop st s (m ∷ ms)).0 in
      rw (open_s, flush_queue)
        (record {
          context = record c { listener = record c.listener { session = some s' } };
          found = find-keep_session b e c s';
          queued = flush_loop-msg_queue s (m ∷ ms);
          flushed =
              rw (pending-set_pending (keep_session st b e c s') e (flush_loop st s (m ∷ ms)).1)
                (flush_loop-Flushed s (m ∷ ms));
        })

  pub flush_pending-Holds :
      (b : Broker W) (e : Endpoint) (c : Context W)
      → find e b.listener_context ≡ some c
      → st.is_open (get_session st c.listener).ws ≡ true
      → Holds
          (flush_pending st b e c)
          e
          (get_session st c.listener).ws
          (pending b e)
          (get_session st c.listener).msg_queue
  unfolding flush_pending
  flush_pending-Holds b e c found open_s =
      flush_queue-Holds (set_pending b e (pending b e)) e c (pending b e)
        (pending-set_pending b e (pending b e)) found open_s
