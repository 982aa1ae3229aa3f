-- ===== src/Network/Connect.antt =====
-- `tcp_socket_connect` and `web_socket_open` of network.cc: two loops that try to connect until a time
-- is over.
pub mod Waiting
use sdl_atf.Common.{
  ℕ, zero, suc, ◌+◌, ◌-◌, ◌*◌, ◌/◌, ◌≤◌, ◌<◌, ◌≡◌, ℤ, pos, negsuc, Bool, true, false, Option, none,
  some, List, [], ◌∷◌, Bytes, codes, ltb, if◌then◌else◌, to_signed, to_unsigned, arith, refl,
}
use sdl_atf.Lua.{Value, LuaApi, Called, running, Function, ◌>>=◌, arg, give, nil, is_nil}
use sdl_atf.Network.Ciphers.{set_cypher_list}
use sdl_atf.Network.Qt.{QtNetwork, SslConfiguration, IsTimed}

-- `timer.elapsed() > time_waiting_ms`
abbrev pub exceeds : ℕ → ℤ → Bool
exceeds ms (pos t) = ltb t ms
exceeds ms (negsuc t) = true

abbrev wrapped : Option Bytes → Option (Option Bytes)
wrapped none = none
wrapped (some s) = some (some s)

-- `luaL_optstring(L, n, NULL)`
abbrev pub opt_string : LuaApi → Value → Option (Option Bytes)
opt_string l nil = some none
opt_string l v = wrapped (l.check_string v)

module _ {W C X K : Type 0} (q : QtNetwork W C X K) where
  -- The loop: `none` where the fuel is out; else the state, and whether there is a connection.
  unfoldable pub tcp_loop : ℕ → W → ℕ → Bytes → ℕ → ℕ → ℤ → Option (W × Bool)
  tcp_loop zero w o ip port timer time_waiting_ms = none
  tcp_loop (suc fuel) w o ip port timer time_waiting_ms =
      let (w1, connected) = q.wait_for_connected w o in
      let w2 : W = q.connect_to_host w1 o ip port in
      elim connected [
        | true ↦ some (w1, true)
        | false ↦ elim (exceeds (q.elapsed w2 timer) time_waiting_ms) [
          | true ↦ some (w2, false)
          | false ↦ tcp_loop fuel w2 o ip port timer time_waiting_ms
        ]
      ]

  unfoldable pub web_loop : ℕ → W → ℕ → Bytes × ℤ → ℕ → ℤ → Option (W × Bool)
  web_loop zero w o url timer time_waiting_ms = none
  web_loop (suc fuel) w o url timer time_waiting_ms =
      let w1 : W = q.usleep (q.event_loop (q.open_url w o url) o) 100 in
      elim (q.is_connected w o) [
        | true ↦ some (w, true)
        | false ↦ elim (exceeds (q.elapsed w1 timer) time_waiting_ms) [
          | true ↦ some (w1, false)
          | false ↦ web_loop fuel w1 o url timer time_waiting_ms
        ]
      ]

module _ {W C X K : Type 0} (q : QtNetwork W C X K) (l : LuaApi) where
  abbrev bind_source : W → ℕ → Option Bytes → W
  bind_source w o none = w
  bind_source w o (some source) = q.bind w o source

  abbrev pub after_tcp_loop : List Value → Option (W × Bool) → Called W
  after_tcp_loop stack none = running
  after_tcp_loop stack (some (w, true)) = give w 0 stack
  after_tcp_loop stack (some (w, false)) = give w 1 stack

  unfoldable pub tcp_socket_connect : ℕ → Function W
  unfolding tcp_loop
  tcp_socket_connect fuel w stack = do
    o ← l.check_udata (codes "network.TcpSocket") (arg 1 stack)
    ip ← l.check_string (arg 2 stack)
    port_value ← l.check_integer (arg 3 stack)
    let port : ℕ = to_unsigned 16 (to_signed 32 port_value)
    let time_waiting_ms : ℤ = to_signed 32 (l.to_integer (arg 4 stack))
    source ← opt_string l (arg 5 stack)
    let w1 : W = q.connect_to_host (bind_source w o source) o ip port
    after_tcp_loop stack (tcp_loop q fuel w1 o ip port (q.start w1) time_waiting_ms)

  -- `const QString s = lua_tostring(...)`: NULL makes the null string, which is empty.
  abbrev string_or_empty : Option Bytes → Bytes
  string_or_empty none = []
  string_or_empty (some s) = s

  abbrev pub after_web_loop : List Value → Option (W × Bool) → Called W
  after_web_loop stack none = running
  after_web_loop stack (some (w, connected)) = give w 0 stack

  unfoldable pub open_with : ℕ → W → ℕ → Bytes × ℤ → ℤ → List Value → Called W
  unfolding web_loop
  open_with fuel w o url time_waiting_ms stack =
      after_web_loop stack (web_loop q fuel w o url (q.start w) time_waiting_ms)

  -- The configuration from the fields of the fifth argument.
  unfoldable pub ssl_configuration : W → ℤ → Value → Value → Value → Value → SslConfiguration C X K
  ssl_configuration w protocol cipher_list ca_cert cert key = record {
    protocol = protocol;
    ciphers = set_cypher_list q.qt_ciphers (string_or_empty (l.to_string cipher_list));
    verify_peer = true;
    ca_certificates = q.certificate w (string_or_empty (l.to_string ca_cert)) ∷ [];
    local_certificate = q.certificate w (string_or_empty (l.to_string cert));
    private_key = q.rsa_key w (string_or_empty (l.to_string key));
  }

  unfoldable pub web_socket_open : ℕ → Function W
  unfolding open_with ssl_configuration
  web_socket_open fuel w stack = do
    o ← l.check_udata (codes "network.WebSocket") (arg 1 stack)
    address ← l.check_string (arg 2 stack)
    let url : Bytes × ℤ = (address, to_signed 32 (l.to_integer (arg 3 stack)))
    let time_waiting_ms : ℤ = to_signed 32 (l.to_integer (arg 4 stack))
    elim (is_nil (arg 5 stack)) [
      | true ↦ open_with fuel w o url time_waiting_ms stack
      | false ↦ do
        protocol ← l.get_field (arg 5 stack) (codes "protocol")
        cipher_list ← l.get_field (arg 5 stack) (codes "cypherListString")
        ca_cert ← l.get_field (arg 5 stack) (codes "caCertPath")
        cert ← l.get_field (arg 5 stack) (codes "certPath")
        key ← l.get_field (arg 5 stack) (codes "keyPath")
        let configuration : SslConfiguration C X K =
            ssl_configuration w (to_signed 32 (l.to_integer protocol)) cipher_list ca_cert cert key
        open_with fuel (q.set_ssl_configuration w o configuration) o url time_waiting_ms stack
    ]
