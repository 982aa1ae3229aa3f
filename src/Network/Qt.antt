-- ===== src/Network/Qt.antt =====
-- What network.cc calls of Qt's sockets, which is a parameter.
use sdl_atf.Common.{ℕ, ◌+◌, ◌-◌, ◌%◌, ◌/◌, ◌≡◌, ◌≤◌, ℤ, Bool, Option, List, Bytes, false}
use sdl_atf.Network.Ciphers.{QtCiphers}

-- `QSslConfiguration`, with the ciphers as `C`, the certificates as `X` and the keys as `K`.
pub record SslConfiguration (C X K : Type 0) : Type 0 where
  pub protocol : ℤ
  pub ciphers : List C
  pub verify_peer : Bool
  pub ca_certificates : List X
  pub local_certificate : X
  pub private_key : K

-- The calls on a state `W` of the network, the disk and the clock; a socket or a server is a number.
pub record QtNetwork (W C X K : Type 0) : Type 0 where
  pub qt_ciphers : QtCiphers C
  pub certificate : W → Bytes → X
  pub rsa_key : W → Bytes → K
  -- QTcpSocket; a port is a `quint16`
  pub new_tcp_socket : W → W × ℕ
  pub bind : W → ℕ → Bytes → W
  pub connect_to_host : W → ℕ → Bytes → ℕ → W
  pub wait_for_connected : W → ℕ → W × Bool
  pub is_open : W → ℕ → Bool
  pub read : W → ℕ → ℤ → W × Bytes
  pub read_all : W → ℕ → W × Bytes
  pub write : W → ℕ → Bytes → W × ℤ
  pub close : W → ℕ → W
  pub delete_socket : W → ℕ → W
  -- QTcpServer, which listens on any address
  pub new_tcp_server : W → W × ℕ
  pub listen : W → ℕ → ℕ → W × Bool
  pub next_pending_connection : W → ℕ → W × Option ℕ
  pub delete_server : W → ℕ → W
  -- QWebSocket; a url is a text and the port that is set in it
  pub new_web_socket : W → W × ℕ
  pub set_ssl_configuration : W → ℕ → SslConfiguration C X K → W
  pub is_connected : W → ℕ → Bool
  pub open_url : W → ℕ → Bytes × ℤ → W
  pub send_text_message : W → ℕ → Bytes → W × ℤ
  pub send_binary_message : W → ℕ → Bytes → W × ℤ
  pub close_web_socket : W → ℕ → W
  pub delete_web_socket : W → ℕ → W
  -- `QEventLoop::exec` until a signal of the socket, `usleep`, and `QTime`
  pub event_loop : W → ℕ → W
  pub usleep : W → ℕ → W
  pub start : W → ℕ
  pub elapsed : W → ℕ → ℕ

-- Time: `QTime` counts whole milliseconds of a clock that no call sets back, here in microseconds, and
-- begins anew after a day. A wait for a connection that fails takes a microsecond at least, and, since
-- `waitForConnected` gives up after 30 seconds, no more than a minute with the new attempt behind it.
pub record IsTimed {W C X K : Type 0} (q : QtNetwork W C X K) : Type 0 where
  pub clock : W → ℕ
  pub elapsed-start :
      (w v : W)
      → clock w ≤ clock v
      → q.elapsed v (q.start w) ≡ (clock v - clock w) / 1000 % 86400000
  pub connect_later :
      (w : W) (o : ℕ) (ip : Bytes) (port : ℕ) → clock w ≤ clock (q.connect_to_host w o ip port)
  pub wait_later :
      (w : W) (o : ℕ)
      → (q.wait_for_connected w o).1 ≡ false
      → clock w + 1 ≤ clock (q.wait_for_connected w o).0
  pub round_limited :
      (w : W) (o : ℕ) (ip : Bytes) (port : ℕ)
      → clock (q.connect_to_host (q.wait_for_connected w o).0 o ip port) ≤ clock w + 60000000
