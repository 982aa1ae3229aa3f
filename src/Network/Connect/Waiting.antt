-- ===== src/Network/Connect/Waiting.antt =====
-- The loop of `tcp_socket_connect` ends: its rounds take time, and the time is limited.
use sdl_atf.Common.{
  ℕ, zero, suc, ◌+◌, ◌-◌, ◌*◌, ◌/◌, ◌%◌, ◌^◌, ◌≤◌, ◌<◌, ◌≡◌, ◌⊎◌, inl, inr, pos, Bool, true, false,
  Option, some, List, [], ◌∷◌, Bytes, codes, ltb, arith, refl, Bool-cases, ltb→lt, sym, ap, ◌∙◌,
  before, to_unsigned-to_signed, to_signed_int,
}
use sdl_atf.Lua.{Value, LuaApi, IsLuaApi, Called, returned, integer, text, userdata}
use sdl_atf.Network.Qt.{QtNetwork, IsTimed}
use sdl_atf.Network.Connect.{after_tcp_loop, tcp_loop, tcp_socket_connect}

-- The rounds of a microsecond that fit into `ms` milliseconds and one more, and the last.
abbrev pub enough_tries : ℕ → ℕ
enough_tries ms = 1000 * (ms + 1) + 1

-- What the loop leaves: the state behind a wait that has found a connection, or one in which more than
-- `ms` milliseconds have gone by.
abbrev pub Ended : {W C X K : Type 0} → QtNetwork W C X K → ℕ → ℕ → ℕ → Option (W × Bool) → Type 0
Ended {W} q o timer ms result =
    ((u : W) × (result ≡ some ((q.wait_for_connected u o).0, true))
      × ((q.wait_for_connected u o).1 ≡ true))
    ⊎ ((v : W) × (result ≡ some (v, false)) × (ms < q.elapsed v timer))

-- The stacks of `socket:connect(ip, port, ms)` and `socket:open(address, port, ms)`.
abbrev pub connect_stack : Bytes → ℕ → Bytes → ℕ → ℕ → List Value
connect_stack class o address port ms =
    userdata class o ∷ text address ∷ integer (pos port) ∷ integer (pos ms) ∷ []

-- Before the day is over, the timer counts the time since its start.
not_over :
    (s c ms n : ℕ)
    → ltb ms ((c - s) / 1000 % 86400000) ≡ false
    → s + n ≤ c
    → c < s + 86400000000
    → (c < s + 1000 * (ms + 1)) × (n < 1000 * (ms + 1))
not_over s c ms n h le day =
    let short : (c - s) / 1000 % 86400000 ≡ (c - s) / 1000 = omega arith in
    let h' : ltb ms ((c - s) / 1000) ≡ false = rw short at h in
    let late : (c - s) / 1000 ≤ ms = ground arith in (omega arith, omega arith)

module _ {W C X K : Type 0} (q : QtNetwork W C X K) (timed : IsTimed q) (s0 : W) where
  tcp_loop_ends :
      (fuel spent : ℕ) (w : W) (o : ℕ) (ip : Bytes) (port ms : ℕ)
      → ms + 60001 < 86400000
      → timed.clock s0 + spent ≤ timed.clock w
      → timed.clock w < timed.clock s0 + 1000 * (ms + 1)
      → enough_tries ms ≤ fuel + spent
      → spent < enough_tries ms
      → Ended q o (q.start s0) ms (tcp_loop q fuel w o ip port (q.start s0) (pos ms))
  unfolding tcp_loop
  tcp_loop_ends zero spent w o ip port ms day late soon fuel_left more = absurd (omega arith)
  tcp_loop_ends (suc fuel) spent w o ip port ms day late soon fuel_left more =
      let w1 : W = (q.wait_for_connected w o).0 in
      let w2 : W = q.connect_to_host w1 o ip port in
      elim (Bool-cases (q.wait_for_connected w o).1) [
        | inl up ↦ rw (up, tcp_loop) (inl (w, refl, up))
        | inr down ↦
            let later : timed.clock s0 + suc spent ≤ timed.clock w2 =
              omega (arith, timed.wait_later w o down, timed.connect_later w1 o ip port) in
            let same_day : timed.clock w2 < timed.clock s0 + 86400000000 =
              omega (arith, timed.round_limited w o ip port) in
            elim (Bool-cases (ltb ms (q.elapsed w2 (q.start s0)))) [
              | inl over ↦
                  rw (down, over, tcp_loop)
                    (inr (w2, refl, ltb→lt ms (q.elapsed w2 (q.start s0)) over))
              | inr early ↦
                  let (soon', fewer) =
                    not_over (timed.clock s0) (timed.clock w2) ms (suc spent)
                      (ap (ltb ms) (sym (timed.elapsed-start s0 w2 (omega arith))) ∙ early) later
                      same_day in
                  rw (down, early, tcp_loop)
                    (tcp_loop_ends fuel (suc spent) w2 o ip port ms day later soon' (omega arith)
                      (omega arith))
            ]
      ]

module _ {W C X K : Type 0} (q : QtNetwork W C X K) (l : LuaApi) where
  -- What a call whose last argument is the time comes to.
  abbrev pub Connects : ℕ → ℕ → ℕ → Called W → Type 0
  Connects o timer ms call =
      ((u : W) × (call ≡ returned (q.wait_for_connected u o).0 [])
        × ((q.wait_for_connected u o).1 ≡ true))
      ⊎ ((v : W) × (call ≡ returned v (integer (pos ms) ∷ [])) × (ms < q.elapsed v timer))

  after_tcp_loop_ends :
      (timer ms o port : ℕ) (class ip : Bytes) (result : Option (W × Bool))
      → Ended q o timer ms result
      → Connects o timer ms (after_tcp_loop q l (connect_stack class o ip port ms) result)
  after_tcp_loop_ends timer ms o port class ip result (inl (u, e, up)) = inl (u, rw e refl, up)
  after_tcp_loop_ends timer ms o port class ip result (inr (v, e, over)) = inr (v, rw e refl, over)

  -- `TcpSocket:connect(ip, port, ms)` comes back, given that the clock goes on, that a round takes no
  -- more than a minute, and that `ms` lies more than a minute below the day after which the timer
  -- begins anew: `enough_tries ms` rounds of its loop are enough. It gives nothing only behind a wait
  -- that has found a connection; when more than `ms` milliseconds have gone by it gives its own last
  -- argument, the time `ms`, since it returns a value without pushing one.
  pub tcp_socket_connect_ends :
      (timed : IsTimed q) (laws : IsLuaApi l) (fuel : ℕ) (w : W) (o : ℕ) (ip : Bytes) (port ms : ℕ)
      → enough_tries ms ≤ fuel
      → port < 2 ^ 16
      → ms + 60001 < 86400000
      → Connects o
          (q.start (q.connect_to_host w o (before 0 ip) port))
          ms
          (tcp_socket_connect q l fuel w (connect_stack (codes "network.TcpSocket") o ip port ms))
  unfolding tcp_socket_connect
  tcp_socket_connect_ends timed laws fuel w o ip port ms enough h16 day =
      let w1 : W = q.connect_to_host w o (before 0 ip) port in
      rw
        (
          laws.udata_same (codes "network.TcpSocket") o,
          laws.string_text ip,
          laws.integer_integer (pos port),
          laws.to_integer_integer (pos ms),
        )
        (rw (to_unsigned-to_signed port h16, to_signed_int ms (omega arith))
          (after_tcp_loop_ends (q.start w1) ms o port (codes "network.TcpSocket") ip _ (
            tcp_loop_ends q timed w1 fuel 0 w1 o (before 0 ip) port ms day (omega arith)
              (omega arith) (omega arith) (omega arith))))
