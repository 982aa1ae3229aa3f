-- ===== src/Broker/Calls.antt =====
-- `MessageBroker`: OpenConnection, CloseConnection, Send, Receive and FlushPendingMsg. A call is
-- `none` where `MakeEndpoint` throws, which each does before it changes anything; what follows it
-- is a function of the endpoint.
use sdl_atf.Common.{
  ℕ, ℤ, pos, negsuc, true, false, Option, none, some, List, [], ◌∷◌, ◌++◌, ◌+◌, Bytes, int_eq, ◌==◌,
  if◌then◌else◌,
}
use sdl_atf.Protocol.{success, write_failure, no_connection, already_exists, ◌>>=◌}
use sdl_atf.Broker.Table.{Endpoint, find, put, erase}
use sdl_atf.Broker.Session.{Stream, Session, write_session, get_message}
use sdl_atf.Broker.Listener.{new_listener, run_listener, stop_listener, get_session}
use sdl_atf.Broker.State.{
  Context, Broker, Addresses, make_endpoint, set_listener, pending, set_pending,
}

-- The loop that starts `threads ? threads : 1` threads.
abbrev pub threads_started : ℤ → ℕ
threads_started (pos n) = if n == 0 then 1 else n
threads_started (negsuc n) = 0

abbrev pub new_context : {W : Type 0} → Context W
new_context = record { listener = new_listener; threads = 0 }

-- `MakeContext`: `map::insert` leaves an entry that is there, and the result is the null pointer.
unfoldable pub make_context : {W : Type 0} → Broker W → Endpoint → Option (Broker W × Context W)
make_context b e = elim (find e b.listener_context) [
  | some c ↦ none
  | none ↦ some (record b { listener_context = put e new_context b.listener_context }, new_context)
]

module _ {W : Type 0} (st : Stream W) where
  -- What the session gave back is kept in the listener.
  abbrev pub keep_session : Broker W → Endpoint → Context W → Session W → Broker W
  keep_session b e c s = set_listener b e c (record c.listener { session = some s })

  -- The promise is set, the listener stopped and the threads joined, and both entries erased.
  unfoldable pub close_endpoint : Broker W → Endpoint → Broker W × ℤ
  close_endpoint b e = elim (find e b.listener_context) [
    | none ↦ (b, no_connection)
    | some c ↦ (
      record {
        listener_context = erase e b.listener_context;
        msg_queue = erase e b.msg_queue;
        stopped = stop_listener st c.listener ∷ b.stopped;
      },
      success,
    )
  ]

  -- Runs the listener of the new context, and starts the threads.
  abbrev start : Broker W → Endpoint → ℤ → Context W → Broker W
  start b e threads c = record b {
    listener_context =
        put e
          (record {
            listener = run_listener c.listener;
            threads = c.threads + threads_started threads;
          })
          b.listener_context;
  }

  -- `if (GetContext(address, port)) CloseConnection(address, port);`
  unfoldable pub close_if_open : Broker W → Endpoint → Broker W
  close_if_open b e = elim (find e b.listener_context) [
    | none ↦ b
    | some c ↦ (close_endpoint b e).0
  ]

  -- Behind it.
  unfoldable pub open_new : Broker W → Endpoint → ℤ → Broker W × ℤ
  unfolding make_context
  open_new b e threads = elim (make_context b e) [
    | none ↦ (b, already_exists)
    | some (b', c) ↦ (start b' e threads c, success)
  ]

  unfoldable pub open_endpoint : Broker W → Endpoint → ℤ → Broker W × ℤ
  unfolding close_if_open open_new
  open_endpoint b e threads = open_new (close_if_open b e) e threads

  -- Writes the messages in turn, up to the first that fails, which stays with those behind it.
  unfoldable pub flush_loop : Session W → List Bytes → Session W × List Bytes
  flush_loop s [] = (s, [])
  flush_loop s (m ∷ ms) = elim (int_eq success (write_session st s m).1) [
    | true ↦ flush_loop (write_session st s m).0 ms
    | false ↦ ((write_session st s m).0, m ∷ ms)
  ]

  -- `FlushPendingMsg` behind its reference to the queue, for a context that is there.
  unfoldable pub flush_queue : Broker W → Endpoint → Context W → List Bytes → Broker W
  unfolding flush_loop
  flush_queue b e c [] = b
  flush_queue b e c (m ∷ ms) =
      let s : Session W = get_session st c.listener in
      elim (st.is_open s.ws) [
        | false ↦ keep_session b e c s
        | true ↦
            let (s', rest) = flush_loop s (m ∷ ms) in set_pending (keep_session b e c s') e rest
      ]

  -- `FlushPendingMsg`; `msg_queue_[endpoint]` makes the entry.
  unfoldable pub flush_pending : Broker W → Endpoint → Context W → Broker W
  unfolding flush_queue
  flush_pending b e c = flush_queue (set_pending b e (pending b e)) e c (pending b e)

  unfoldable pub send_to : Broker W → Endpoint → Bytes → Broker W × Bytes × ℤ
  send_to b e message = elim (find e b.listener_context) [
    | none ↦ (b, [], no_connection)
    | some c ↦
        let s : Session W = get_session st c.listener in
        elim (st.is_open s.ws) [
          | true ↦
              let (s', result) = write_session st s message in
              let (s'', msg) = get_message s' in (keep_session b e c s'', msg, result)
          | false ↦ (
            set_pending (keep_session b e c s) e (pending b e ++ message ∷ []),
            [],
            write_failure,
          )
        ]
  ]

  -- Behind the flush, from the context as it then is.
  abbrev pub receive_next : Broker W → Endpoint → Option (Context W) → Broker W × Bytes × ℤ
  receive_next b e none = (b, [], no_connection)
  receive_next b e (some c) =
      let (s, msg) = get_message (get_session st c.listener) in (keep_session b e c s, msg, success)

  unfoldable pub receive_from : Broker W → Endpoint → Broker W × Bytes × ℤ
  unfolding flush_pending
  receive_from b e = elim (find e b.listener_context) [
    | none ↦ (b, [], no_connection)
    | some c ↦ let b' = flush_pending b e c in receive_next b' e (find e b'.listener_context)
  ]

  module _ (ips : Addresses) (b : Broker W) (address : Bytes) (port : ℤ) where
    unfoldable pub open_connection : ℤ → Option (Broker W × ℤ)
    unfolding open_endpoint
    open_connection threads = do
      e ← make_endpoint ips address port
      some (open_endpoint b e threads)

    unfoldable pub close_connection : Option (Broker W × ℤ)
    unfolding close_endpoint
    close_connection = do e ← make_endpoint ips address port; some (close_endpoint b e)

    unfoldable pub send : Bytes → Option (Broker W × Bytes × ℤ)
    unfolding send_to
    send message = do e ← make_endpoint ips address port; some (send_to b e message)

    unfoldable pub receive : Option (Broker W × Bytes × ℤ)
    unfolding receive_from
    receive = do e ← make_endpoint ips address port; some (receive_from b e)
