-- ===== src/Network/Sockets.antt =====
-- The other functions of network.cc, and the tables in which `luaopen_network` registers them.
pub mod Typed
pub mod Closed
use sdl_atf.Common.{
  ℕ, ℤ, pos, Bool, true, false, Option, none, some, List, [], ◌∷◌, Bytes, codes, to_signed,
  to_unsigned,
}
use sdl_atf.Lua.{
  Value, nil, boolean, integer, text, userdata, LuaApi, Called, Function, ◌>>=◌, arg, give, push,
  Metatable,
}
use sdl_atf.Network.Qt.{QtNetwork}
use sdl_atf.Network.Connect.{tcp_socket_connect, web_socket_open}

abbrev pub tcp_socket : Bytes
tcp_socket = codes "network.TcpSocket"

abbrev pub tcp_server : Bytes
tcp_server = codes "network.TcpServer"

abbrev pub web_socket : Bytes
web_socket = codes "network.WebSocket"

module _ {W C X K : Type 0} (q : QtNetwork W C X K) (l : LuaApi) where
  unfoldable pub network_tcp_client : Function W
  network_tcp_client w stack =
      let (w', o) = q.new_tcp_socket w in give w' 1 (push (userdata tcp_socket o) stack)

  -- A socket that is not open pushes nothing, and a value is returned all the same.
  unfoldable pub tcp_socket_read : Function W
  tcp_socket_read w stack = do
    o ← l.check_udata tcp_socket (arg 1 stack)
    max_size ← l.check_integer (arg 2 stack)
    elim (q.is_open w o) [
      | true ↦
          let (w', result) = q.read w o (to_signed 32 max_size) in
          give w' 1 (push (text result) stack)
      | false ↦ give w 1 stack
    ]

  unfoldable pub tcp_socket_read_all : Function W
  tcp_socket_read_all w stack = do
    o ← l.check_udata tcp_socket (arg 1 stack)
    let (w', result) = q.read_all w o in give w' 1 (push (text result) stack)

  unfoldable pub tcp_socket_write : Function W
  tcp_socket_write w stack = do
    o ← l.check_udata tcp_socket (arg 1 stack)
    bytes ← l.check_lstring (arg 2 stack)
    elim (q.is_open w o) [
      | true ↦
          let (w', result) = q.write w o bytes in
          give w' 1 (push (integer (to_signed 32 result)) stack)
      | false ↦ give w 1 stack
    ]

  unfoldable pub tcp_socket_close : Function W
  tcp_socket_close w stack = do
    o ← l.check_udata tcp_socket (arg 1 stack)
    give (q.close w o) 0 stack

  unfoldable pub tcp_socket_delete : Function W
  tcp_socket_delete w stack = do
    o ← l.check_udata tcp_socket (arg 1 stack)
    give (q.delete_socket w o) 0 stack

  unfoldable pub network_tcp_server : Function W
  network_tcp_server w stack =
      let (w', o) = q.new_tcp_server w in give w' 1 (push (userdata tcp_server o) stack)

  -- The address is read, and not used.
  unfoldable pub tcp_server_listen : Function W
  tcp_server_listen w stack = do
    o ← l.check_udata tcp_server (arg 1 stack)
    ip ← l.check_string (arg 2 stack)
    port ← l.check_integer (arg 3 stack)
    let (w', listening) = q.listen w o (to_unsigned 16 (to_signed 32 port)) in
        give w' 1 (push (boolean listening) stack)

  abbrev connection : Option ℕ → Value
  connection none = nil
  connection (some o) = userdata tcp_socket o

  unfoldable pub tcp_server_get_connection : Function W
  tcp_server_get_connection w stack = do
    o ← l.check_udata tcp_server (arg 1 stack)
    let (w', pending) = q.next_pending_connection w o in give w' 1 (push (connection pending) stack)

  unfoldable pub tcp_server_delete : Function W
  tcp_server_delete w stack = do
    o ← l.check_udata tcp_server (arg 1 stack)
    give (q.delete_server w o) 0 stack

  unfoldable pub network_web_socket : Function W
  network_web_socket w stack =
      let (w', o) = q.new_web_socket w in give w' 1 (push (userdata web_socket o) stack)

  unfoldable pub web_socket_close : Function W
  web_socket_close w stack = do
    o ← l.check_udata web_socket (arg 1 stack)
    give (q.close_web_socket w o) 0 stack

  unfoldable pub web_socket_write : Function W
  web_socket_write w stack = do
    o ← l.check_udata web_socket (arg 1 stack)
    bytes ← l.check_lstring (arg 2 stack)
    let (w', res) = q.send_text_message w o bytes in
        give w' 1 (push (integer (to_signed 32 res)) stack)

  unfoldable pub web_socket_binarywrite : Function W
  web_socket_binarywrite w stack = do
    o ← l.check_udata web_socket (arg 1 stack)
    bytes ← l.check_lstring (arg 2 stack)
    let (w', res) = q.send_binary_message w o bytes in
        give w' 1 (push (integer (to_signed 32 res)) stack)

  unfoldable pub web_socket_delete : Function W
  web_socket_delete w stack = do
    o ← l.check_udata web_socket (arg 1 stack)
    give (q.delete_web_socket w o) 0 stack

  -- The tables behind `__index` of the three metatables, and their functions behind `__gc`.
  unfoldable pub tcp_server_functions : List (Bytes × Function W)
  unfolding tcp_server_listen tcp_server_get_connection
  tcp_server_functions =
      (codes "listen", tcp_server_listen) ∷ (codes "get_connection", tcp_server_get_connection) ∷ []

  unfoldable pub tcp_socket_functions : ℕ → List (Bytes × Function W)
  unfolding tcp_socket_read tcp_socket_read_all tcp_socket_write tcp_socket_close
  tcp_socket_functions fuel =
      (codes "connect", tcp_socket_connect q l fuel)
      ∷ (codes "read", tcp_socket_read)
      ∷ (codes "read_all", tcp_socket_read_all)
      ∷ (codes "write", tcp_socket_write)
      ∷ (codes "close", tcp_socket_close)
      ∷ []

  unfoldable pub web_socket_functions : ℕ → List (Bytes × Function W)
  unfolding web_socket_close web_socket_write web_socket_binarywrite
  web_socket_functions fuel =
      (codes "open", web_socket_open q l fuel)
      ∷ (codes "close", web_socket_close)
      ∷ (codes "write", web_socket_write)
      ∷ (codes "binary_write", web_socket_binarywrite)
      ∷ []

  unfoldable pub luaopen_network : ℕ → List (Metatable W)
  unfolding tcp_server_functions tcp_socket_functions web_socket_functions tcp_server_delete
      tcp_socket_delete web_socket_delete
  luaopen_network fuel =
      record {
        class = tcp_server;
        index = tcp_server_functions;
        events = (codes "__gc", tcp_server_delete) ∷ [];
      }
      ∷ record {
        class = tcp_socket;
        index = tcp_socket_functions fuel;
        events = (codes "__gc", tcp_socket_delete) ∷ [];
      }
      ∷ record {
        class = web_socket;
        index = web_socket_functions fuel;
        events = (codes "__gc", web_socket_delete) ∷ [];
      }
      ∷ []

  unfoldable pub network_functions : List (Bytes × Function W)
  unfolding network_tcp_client network_tcp_server network_web_socket
  network_functions =
      (codes "TcpClient", network_tcp_client)
      ∷ (codes "TcpServer", network_tcp_server)
      ∷ (codes "WebSocket", network_web_socket)
      ∷ []
