-- ===== src/LuaLib/Hmi/Addressing.antt =====
-- The address that a script gives an adapter against the one that the broker's handlers read.
use sdl_atf.Common.{
  ℕ, ◌≡◌, ◌<◌, ◌^◌, refl, ap, arith, ◌%◌, Option, none, ℤ, pos, true, some, List, [], ◌∷◌, ◌++◌,
  Bytes, codes, before-lacks, lacks, to_signed_int,
}
use sdl_atf.Protocol.{
  ParameterType, pair, type_string, type_int, LexicalCast, IsLexicalCast, get_value,
}
use sdl_atf.Protocol.Decimal.{to_string, decimal}
use sdl_atf.Broker.Session.{Stream}
use sdl_atf.Broker.State.{Broker, Addresses, make_endpoint, at_port}
use sdl_atf.Broker.Calls.{open_connection, close_connection, send, receive}
use sdl_atf.Broker.Handlers.{
  served_code, served_result, handle_open, handle_close, handle_send, handle_receive,
}
use sdl_atf.Lua.{Value, text, integer, LuaApi, IsLuaApi}
use sdl_atf.LuaLib.Parameters.{got, build_tcp_params}

-- `MakeEndpoint` takes a port modulo 65536.
make_endpoint-port :
    (ips : Addresses) (host : Bytes) (port : ℕ)
    → make_endpoint ips host (pos port) ≡ make_endpoint ips host (pos (port % 65536))
unfolding make_endpoint
make_endpoint-port ips host port =
    let same : port % 2 ^ 16 ≡ (port % 65536) % 2 ^ 16 = omega arith in
    by_address (ips.make_address host) same
  where
    by_address :
        (o : Option ℕ)
        → port % 2 ^ 16 ≡ (port % 65536) % 2 ^ 16
        → at_port (pos port) o ≡ at_port (pos (port % 65536)) o
    by_address none same = refl
    by_address (some ip) same = ap (λ n. some (record { address = ip; port = n })) same

module _ {W : Type 0} (st : Stream W) (ips : Addresses) (b : Broker W) (host : Bytes)
    (port : ℕ) where
  open_connection-port :
      (threads : ℤ)
      → open_connection st ips b host (pos port) threads
        ≡ open_connection st ips b host (pos (port % 65536)) threads
  unfolding open_connection
  open_connection-port threads = rw (make_endpoint-port ips host port) refl

  close_connection-port :
      close_connection st ips b host (pos port)
      ≡ close_connection st ips b host (pos (port % 65536))
  unfolding close_connection
  close_connection-port = rw (make_endpoint-port ips host port) refl

  send-port :
      (message : Bytes)
      → send st ips b host (pos port) message ≡ send st ips b host (pos (port % 65536)) message
  unfolding send
  send-port message = rw (make_endpoint-port ips host port) refl

  receive-port : receive st ips b host (pos port) ≡ receive st ips b host (pos (port % 65536))
  unfolding receive
  receive-port = rw (make_endpoint-port ips host port) refl

module _ {W : Type 0} (cast : LexicalCast) (strerror : ℤ → Bytes) (st : Stream W) (ips : Addresses)
    (b : Broker W) where
  -- That the parameters `ps`, with a message behind them for a sending, reach the four calls of the
  -- broker as this address and this port.
  abbrev pub Addressed : List ParameterType → Bytes → ℤ → Bytes → Type 0
  Addressed ps host port message =
      (handle_open cast strerror st ips b ps
        ≡ served_code cast strerror st ips b (open_connection st ips b host port (pos 2)))
      × (handle_close cast strerror st ips b ps
          ≡ served_code cast strerror st ips b (close_connection st ips b host port))
      × (handle_send cast strerror st ips b (ps ++ pair message type_string ∷ [])
          ≡ served_result cast strerror st ips b (send st ips b host port message))
      × (handle_receive cast strerror st ips b ps
          ≡ served_result cast strerror st ips b (receive st ips b host port))

  -- An adapter that a script makes with the table { host = host, port = port } keeps parameters with
  -- which the broker's handlers open, close, write and read the connection at this host and at this port
  -- modulo 65536, so at exactly this port where it is one, for every host without NUL bytes and every
  -- port below 2 ^ 31.
  pub build_tcp_params-Addressed :
      (l : LuaApi) (laws : IsLuaApi l) (casts : IsLexicalCast cast) (table : Value) (host : Bytes)
      (port : ℕ) (message : Bytes)
      → l.get_field table (codes "host") ≡ some (text host)
      → l.get_field table (codes "port") ≡ some (integer (pos port))
      → lacks 0 host ≡ true
      → port < 2 ^ 31
      → (ps : List ParameterType) × (build_tcp_params l table ≡ got ps)
        × Addressed ps host (pos (port % 65536)) message
  unfolding build_tcp_params handle_open handle_close handle_send handle_receive get_value to_string
  build_tcp_params-Addressed l laws casts table host port message at_host at_port plain small = (
    pair host type_string ∷ pair (decimal port) type_int ∷ [],
    rw
        (
          at_host,
          at_port,
          laws.to_string_text host,
          before-lacks 0 host plain,
          laws.to_integer_integer (pos port),
          to_signed_int port small,
        )
        refl,
    rw (casts.text host, casts.int port small, casts.text message)
        (
          ap (served_code cast strerror st ips b) (open_connection-port st ips b host port (pos 2)),
          ap (served_code cast strerror st ips b) (close_connection-port st ips b host port),
          ap (served_result cast strerror st ips b) (send-port st ips b host port message),
          ap (served_result cast strerror st ips b) (receive-port st ips b host port),
        ),
  )
