-- ===== src/Hmi/Signals.antt =====
-- The signal `disconnected`.
use sdl_atf.Common.{
  ℕ, ◌+◌, ◌≡◌, refl, ℤ, Bool, true, false, not, ◌&&◌, List, [], ◌∷◌, ◌++◌, Bytes, codes, arith,
  if◌then◌else◌, if_case, Bool-cases, inl, inr, before, length, int_eq,
}
use sdl_atf.Protocol.{ParameterType, ResponseType, pair, success, no_connection, type_string}
use sdl_atf.Client.Connection.{RpcClient, Result, returned, threw}
use sdl_atf.Hmi.Adapter.{
  Adapter, Signal, disconnected, connected, text_message_received, bytes_written, new_adapter,
  remote_call, deliver, connection_lost, emit, received, sent, after_receive, connect, send,
  receive, listen,
}
use sdl_atf.Hmi.Actions.{Action, connects, receives, listens, sends, act, acts}

-- How often the signal `disconnected` was emitted.
abbrev is_disconnected : Signal → ℕ
is_disconnected disconnected = 1
is_disconnected _ = 0

abbrev pub disconnections : List Signal → ℕ
disconnections [] = 0
disconnections (s ∷ ss) = is_disconnected s + disconnections ss

-- Every listener thread that is to be started starts, and no slot of `connected` throws.
abbrev pub all_start : List Action → Bool
all_start [] = true
all_start (connects starts ∷ xs) = starts && all_start xs
all_start (receives ∷ xs) = all_start xs
all_start (listens ∷ xs) = all_start xs
all_start (sends message ∷ xs) = all_start xs

disconnections-append :
    (xs ys : List Signal) → disconnections (xs ++ ys) ≡ disconnections xs + disconnections ys
disconnections-append [] ys = omega arith
disconnections-append (x ∷ xs) ys = omega (arith, disconnections-append xs ys)

module _ {C : Type 0} where
  -- The adapter is connected only while it has a listener, and has said `disconnected` once if it had
  -- a connection and lost it, and never otherwise.
  pub record IsValid (a : Adapter C) : Type 0 where
    pub owned : a.is_connected ≡ true → a.listener ≡ true
    pub counted : disconnections a.emitted ≡ (if a.listener && not a.is_connected then 1 else 0)

module _ {C : Type 0} (rpc : RpcClient C) where
  connect-IsValid : (a : Adapter C) → IsValid a → IsValid (connect rpc true a).0
  unfolding connect
  connect-IsValid a v = ground (arith, disconnections-append a.emitted (connected ∷ []))

  disconnections-deliver :
      (a : Adapter C) (m : Bytes) → disconnections (deliver a m).emitted ≡ disconnections a.emitted
  unfolding deliver
  disconnections-deliver a [] = refl
  disconnections-deliver a (c ∷ cs) =
      ground
        (arith, disconnections-append a.emitted (text_message_received (before 0 (c ∷ cs)) ∷ []))

  -- What `deliver` leaves alone.
  deliver_flags :
      (a : Adapter C) (m : Bytes)
      → ((deliver a m).is_connected ≡ a.is_connected) × ((deliver a m).listener ≡ a.listener)
  unfolding deliver
  deliver_flags a [] = (refl, refl)
  deliver_flags a (c ∷ cs) = (refl, refl)

  deliver-IsValid : (a : Adapter C) (m : Bytes) → IsValid a → IsValid (deliver a m)
  deliver-IsValid a m v = ground (arith, disconnections-deliver a m, deliver_flags a m)

  connection_lost-IsValid : (a : Adapter C) → IsValid a → IsValid (connection_lost a)
  unfolding connection_lost
  connection_lost-IsValid a v = ground (arith, disconnections-append a.emitted (disconnected ∷ []))

  written-IsValid : (a : Adapter C) (n : ℕ) → IsValid a → IsValid (emit a (bytes_written n))
  written-IsValid a n v = ground (arith, disconnections-append a.emitted (bytes_written n ∷ []))

  received-IsValid :
      (p : Adapter C × Result ResponseType) → IsValid p.0 → IsValid (received rpc p).0
  received-IsValid (a, threw) v = v
  received-IsValid (a, returned r) v = elim (Bool-cases (int_eq success r.second)) [
    | inl ok ↦ rw (ok, received) (deliver-IsValid a r.first v)
    | inr bad ↦ elim (Bool-cases (int_eq no_connection r.second)) [
      | inl lost ↦ rw (bad, received) (rw (lost, received) (connection_lost-IsValid a v))
      | inr other ↦ rw (bad, received) (rw (other, received) v)
    ]
  ]

  sent-IsValid :
      (m : Bytes) (p : Adapter C × Result ResponseType) → IsValid p.0 → IsValid (sent rpc m p).0
  sent-IsValid m (a, threw) v = v
  sent-IsValid m (a, returned r) v = elim (Bool-cases (int_eq success r.second)) [
    | inl ok ↦ rw (ok, sent) (deliver-IsValid _ r.first (written-IsValid a (length m) v))
    | inr bad ↦ elim (Bool-cases (int_eq no_connection r.second)) [
      | inl lost ↦ rw (bad, sent) (rw (lost, sent) (connection_lost-IsValid a v))
      | inr other ↦ rw (bad, sent) (rw (other, sent) v)
    ]
  ]

  remote_call-IsValid :
      (a : Adapter C) (name : Bytes) (ps : List ParameterType)
      → IsValid a
      → IsValid (remote_call rpc a name ps).0
  remote_call-IsValid a name ps v = record { owned = v.owned; counted = v.counted }

  send-IsValid : (a : Adapter C) (m : Bytes) → IsValid a → IsValid (send rpc a m).0
  unfolding send
  send-IsValid a m v =
      let ps : List ParameterType = a.connection_parameters ++ pair m type_string ∷ [] in
      if_case (λ (p : Adapter C × Result ℤ). IsValid p.0) a.is_connected _ _
        (sent-IsValid m (remote_call rpc a (codes "send") ps)
          (remote_call-IsValid a (codes "send") ps v))
        v

  receive-IsValid : (a : Adapter C) → IsValid a → IsValid (receive rpc a).0
  unfolding receive
  receive-IsValid a v =
      if_case (λ (p : Adapter C × Result ResponseType). IsValid p.0) a.is_connected _ _
        (received-IsValid (remote_call rpc a (codes "receive") a.connection_parameters)
          (remote_call-IsValid a (codes "receive") a.connection_parameters v))
        v

  after_receive-IsValid :
      (p : Adapter C × Result ResponseType) → IsValid p.0 → IsValid (after_receive rpc p)
  after_receive-IsValid (a, threw) v = record { owned = v.owned; counted = v.counted }
  after_receive-IsValid (a, returned r) v = v

  listen-IsValid : (a : Adapter C) → IsValid a → IsValid (listen rpc a)
  unfolding listen
  listen-IsValid a v =
      if_case IsValid a.listening _ _ (after_receive-IsValid (receive rpc a) (receive-IsValid a v))
        v

  act-IsValid :
      (a : Adapter C) (x : Action) → all_start (x ∷ []) ≡ true → IsValid a → IsValid (act rpc a x)
  unfolding act
  act-IsValid a (connects true) h v = connect-IsValid a v
  act-IsValid a (connects false) h v = cc
  act-IsValid a receives h v = receive-IsValid a v
  act-IsValid a listens h v = listen-IsValid a v
  act-IsValid a (sends m) h v = send-IsValid a m v

  acts-IsValid :
      (a : Adapter C) (xs : List Action) → all_start xs ≡ true → IsValid a → IsValid (acts rpc a xs)
  unfolding acts
  acts-IsValid a [] h v = v
  acts-IsValid a (x ∷ xs) h v =
      acts-IsValid (act rpc a x) xs (ground arith) (act-IsValid a x (ground arith) v)

  -- For calls of a new adapter and rounds of its listener thread one after the other, each of them run
  -- to its end before the next begins, and whatever the remote side answers: if no listener thread
  -- fails to start and no slot of `connected` throws, the adapter emits `disconnected` at most once in
  -- its life, and has done so exactly if it had a connection and lost it.
  pub acts-disconnections :
      (c : C) (ps : List ParameterType) (xs : List Action)
      → all_start xs ≡ true
      → disconnections (acts rpc (new_adapter c ps) xs).emitted ≡ (
          if (acts rpc (new_adapter c ps) xs).listener
            && not (acts rpc (new_adapter c ps) xs).is_connected
          then 1
          else 0)
  acts-disconnections c ps xs h =
      (acts-IsValid (new_adapter c ps) xs h (record { owned = λ k. cc; counted = refl })).counted
