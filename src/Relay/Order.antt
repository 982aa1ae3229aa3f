-- ===== src/Relay/Order.antt =====
-- Every message that arrives is emitted once, in its turn.
use sdl_atf.Common.{
  ◌≡◌, refl, sym, ap, ◌∙◌, ℤ, Bool, true, false, some, List, [], ◌∷◌, ◌++◌, Bytes, codes, before,
  head_or, drop, if◌then◌else◌, length, append-nil, append_assoc, Bool-cases, inl, inr,
}
use sdl_atf.Protocol.{
  ParameterType, ResponseType, pair, success, write_failure, type_string, LexicalCast,
  IsLexicalCast, get_value,
}
use sdl_atf.Client.Connection.{RpcClient, returned, settle}
use sdl_atf.Client.Calls.{content_call}
use sdl_atf.Broker.Table.{Endpoint}
use sdl_atf.Broker.Session.{Stream}
use sdl_atf.Broker.State.{Broker, Addresses, make_endpoint}
use sdl_atf.Broker.Calls.{receive_from, send_to}
use sdl_atf.Broker.Calls
use sdl_atf.Broker.Handlers.{responded, handle_receive, handle_send}
use sdl_atf.Broker.Binding.{Handler, handler_of, handler_of-send, handler_of-receive}
use sdl_atf.Broker.Reading.{
  Reads, session_at, receive_from-Reads, send_to-Reads, send_to_shut-Reads, reads-Reads,
  reads_empty-Reads,
}
use sdl_atf.Hmi.Adapter.{
  Adapter, Signal, text_message_received, bytes_written, deliver, send, receive, listen,
}
use sdl_atf.Relay.{
  Relays, Happening, arrives, listens, sends, addressed, texts, text_in, texts_in, arrived, happen,
  happens, live, Delivers,
}

texts-append : (xs ys : List Signal) → texts (xs ++ ys) ≡ texts xs ++ texts ys
texts-append [] ys = refl
texts-append (x ∷ xs) ys = simp (texts-append xs ys, append_assoc)

texts_in-append : (xs ys : List Bytes) → texts_in (xs ++ ys) ≡ texts_in xs ++ texts_in ys
texts_in-append [] ys = refl
texts_in-append (x ∷ xs) ys = simp (texts_in-append xs ys, append_assoc)

module _ {W C : Type 0} (cast : LexicalCast) (casts : IsLexicalCast cast) (strerror : ℤ → Bytes)
    (st : Stream W) (ips : Addresses) (rpc : RpcClient C)
    (link : Relays rpc (handler_of cast strerror st ips)) where
  -- What a call of the client comes to that a handler answers, and the broker behind it.
  record IsAnswered (c : C) (name : Bytes) (ps : List ParameterType) (b : Broker W)
      (r : ResponseType) : Type 0 where
    pub response : content_call rpc c name ps ≡ (returned r, (rpc.call c name ps).1)
    pub broker : link.broker (rpc.call c name ps).1 ≡ b

  content_call_answered :
      (c : C) (name : Bytes) (ps : List ParameterType) (h : Handler W) (b : Broker W)
      (r : ResponseType)
      → handler_of cast strerror st ips name ≡ some h
      → h (link.broker c) ps ≡ (b, responded r)
      → IsAnswered c name ps b r
  unfolding content_call settle
  content_call_answered c name ps h b r bound served =
      let answered : (h (link.broker c) ps).1 ≡ responded r = ap (λ p. p.1) served in
      record {
        response =
            rw (link.connected c, content_call)
              (ap (λ o. (settle o, (rpc.call c name ps).1))
                (link.responses c name ps h r bound answered));
        broker = link.brokers c name ps h r bound answered ∙ ap (λ p. p.0) served;
      }

  module _ (e : Endpoint) (host port_text : Bytes) (port : ℤ)
      (number : cast.to_int port_text ≡ some port) (made : make_endpoint ips host port ≡ some e)
      (listener : Bool) where
    abbrev alive : C → List Signal → Adapter C
    alive = live host port_text listener

    abbrev Delivered : Adapter C → List Bytes → Type 0
    Delivered = Delivers st link.broker e (live host port_text listener)

    handle_receive_lem :
        (b : Broker W)
        → handle_receive cast strerror st ips b (addressed host port_text) ≡ (
          (receive_from st b e).0,
          responded (pair (receive_from st b e).1 (receive_from st b e).2),
        )
    unfolding handle_receive get_value Calls.receive
    handle_receive_lem b = rw (casts.text host, number, made) refl

    handle_send_lem :
        (b : Broker W) (m : Bytes)
        → handle_send cast strerror st ips b (addressed host port_text ++ pair m type_string ∷ [])
          ≡ ((send_to st b e m).0, responded (pair (send_to st b e m).1 (send_to st b e m).2))
    unfolding handle_send get_value Calls.send
    handle_send_lem b m = rw (casts.text host, number, casts.text m, made) refl

    Delivers-eq :
        {a : Adapter C} {all all' : List Bytes} → all ≡ all' → Delivered a all → Delivered a all'
    Delivers-eq p d = record {
      remote = d.remote;
      emitted = d.emitted;
      queue = d.queue;
      shape = d.shape;
      session = d.session;
      in_order = d.in_order ∙ p;
    }

    -- The first message of a queue is delivered, if there is one.
    deliver_first :
        (c : C) (emitted : List Signal) (queue : List Bytes)
        → Reads st (link.broker c) e (drop 1 queue)
        → Delivered (deliver (alive c emitted) (head_or [] queue)) (texts emitted ++ texts_in queue)
    unfolding deliver
    deliver_first c emitted [] r = record {
      remote = c;
      emitted = emitted;
      queue = [];
      shape = refl;
      session = r;
      in_order = refl;
    }
    deliver_first c emitted ([] ∷ ms) r = record {
      remote = c;
      emitted = emitted;
      queue = ms;
      shape = refl;
      session = r;
      in_order = refl;
    }
    deliver_first c emitted ((x ∷ xs) ∷ ms) r = record {
      remote = c;
      emitted = emitted ++ text_message_received (before 0 (x ∷ xs)) ∷ [];
      queue = ms;
      shape = refl;
      session = r;
      in_order =
          simp
            (texts-append emitted (text_message_received (before 0 (x ∷ xs)) ∷ []), append_assoc);
    }

    listen-Delivers :
        (c : C) (emitted : List Signal) (queue : List Bytes)
        → Reads st (link.broker c) e queue
        → Delivered (listen rpc (alive c emitted)) (texts emitted ++ texts_in queue)
    unfolding listen receive
    listen-Delivers c emitted queue r =
        let (rest, first, code) = receive_from-Reads st (link.broker c) e queue r in
        let answer =
          content_call_answered c (codes "receive") (addressed host port_text) _ _ _
            (handler_of-receive cast strerror st ips) (handle_receive_lem (link.broker c)) in
        rw answer.response
          (rw (code, first) (deliver_first _ emitted queue (rw answer.broker rest)))

    -- A send on a session that is open, where the write does not fail.
    send_open-Delivers :
        (c : C) (emitted : List Signal) (queue : List Bytes) (m : Bytes)
        (r : Reads st (link.broker c) e queue)
        → st.is_open (session_at st r).ws ≡ true
        → (st.write (session_at st r).ws m).1 ≡ true
        → Delivered (send rpc (alive c emitted) m).0 (texts emitted ++ texts_in queue)
    unfolding send
    send_open-Delivers c emitted queue m r opened wrote =
        let (rest, first, code) = send_to-Reads st (link.broker c) e m queue r opened in
        let answer =
          content_call_answered c (codes "send")
            (addressed host port_text ++ pair m type_string ∷ []) _ _ _
            (handler_of-send cast strerror st ips) (handle_send_lem (link.broker c) m) in
        rw answer.response (
          rw (code ∙ ap (λ ok. if ok then success else write_failure) wrote, first)
            (Delivers-eq (simp (texts-append emitted (bytes_written (length m) ∷ []), append-nil)) (
              deliver_first _ (emitted ++ bytes_written (length m) ∷ []) queue
                (rw answer.broker rest))))

    -- A send on one that is not: the message waits in the broker.
    send_shut-Delivers :
        (c : C) (emitted : List Signal) (queue : List Bytes) (m : Bytes)
        (r : Reads st (link.broker c) e queue)
        → st.is_open (session_at st r).ws ≡ false
        → Delivered (send rpc (alive c emitted) m).0 (texts emitted ++ texts_in queue)
    unfolding send
    send_shut-Delivers c emitted queue m r shut =
        let (rest, code) = send_to_shut-Reads st (link.broker c) e m queue r shut in
        let answer =
          content_call_answered c (codes "send")
            (addressed host port_text ++ pair m type_string ∷ []) _ _ _
            (handler_of-send cast strerror st ips) (handle_send_lem (link.broker c) m) in
        rw answer.response (
          rw code (record {
            remote =
                (rpc.call c (codes "send") (addressed host port_text ++ pair m type_string ∷ [])).1;
            emitted = emitted;
            queue = queue;
            shape = refl;
            session = rw answer.broker rest;
            in_order = refl;
          }))

    arrives-Delivers :
        (c : C) (emitted : List Signal) (queue : List Bytes) (m : Bytes)
        → Reads st (link.broker c) e queue
        → Delivered
            (happen cast strerror st ips rpc link e (alive c emitted) (arrives m))
            ((texts emitted ++ texts_in queue) ++ text_in m)
    unfolding happen
    arrives-Delivers c emitted queue [] r = record {
      remote = _;
      emitted = emitted;
      queue = queue;
      shape = refl;
      session = rw (link.broker_with c _) (reads_empty-Reads st (link.broker c) e queue r);
      in_order = sym (append-nil _);
    }
    arrives-Delivers c emitted queue (x ∷ xs) r = record {
      remote = _;
      emitted = emitted;
      queue = queue ++ (x ∷ xs) ∷ [];
      shape = refl;
      session = rw (link.broker_with c _) (reads-Reads st (link.broker c) e x xs queue r);
      in_order = simp (texts_in-append queue ((x ∷ xs) ∷ []), append_assoc);
    }

    module _ (writes : (w : W) (m : Bytes) → st.is_open w ≡ true → (st.write w m).1 ≡ true) where
      happen-Delivers :
          (c : C) (emitted : List Signal) (queue : List Bytes) (h : Happening)
          → Reads st (link.broker c) e queue
          → Delivered
              (happen cast strerror st ips rpc link e (alive c emitted) h)
              ((texts emitted ++ texts_in queue) ++ arrived (h ∷ []))
      unfolding happen
      happen-Delivers c emitted queue (arrives m) r =
          Delivers-eq (simp append-nil) (arrives-Delivers c emitted queue m r)
      happen-Delivers c emitted queue listens r =
          Delivers-eq (simp append-nil) (listen-Delivers c emitted queue r)
      happen-Delivers c emitted queue (sends m) r =
          Delivers-eq (simp append-nil) (elim (Bool-cases (st.is_open (session_at st r).ws)) [
            | inl opened ↦
                send_open-Delivers c emitted queue m r opened (writes (session_at st r).ws m opened)
            | inr shut ↦ send_shut-Delivers c emitted queue m r shut
          ])

      -- Whatever arrives at the session of a connected adapter, in whatever order with the rounds of
      -- its listener thread and the sending of messages: it stays connected, and the texts that it has emitted, with those of
      -- the messages that wait in the session behind them, are the texts it had emitted and that
      -- waited before, and behind them the texts of what has arrived, in this order. So no message is
      -- lost, emitted twice or overtaken by a later one. A text ends before the first NUL byte of its
      -- message, and an empty message is none. This is given that the library carries each call to the
      -- broker's handler, that no write to an open stream fails, and that each call is one step.
      pub happens-Delivers :
          (c : C) (emitted : List Signal) (queue : List Bytes) (hs : List Happening)
          → Reads st (link.broker c) e queue
          → Delivers st link.broker e
              (live host port_text listener)
              (happens cast strerror st ips rpc link e (live host port_text listener c emitted) hs)
              ((texts emitted ++ texts_in queue) ++ arrived hs)
      unfolding happens
      happens-Delivers c emitted queue [] r = record {
        remote = c;
        emitted = emitted;
        queue = queue;
        shape = refl;
        session = r;
        in_order = sym (append-nil _);
      }
      happens-Delivers c emitted queue (h ∷ hs) r =
          let d = happen-Delivers c emitted queue h r in
          let next = happens-Delivers d.remote d.emitted d.queue hs d.session in
          rw d.shape (Delivers-eq (rw d.in_order (simp append_assoc)) next)
