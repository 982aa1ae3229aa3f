-- ===== src/Network/Sockets/Typed.antt =====
-- The functions that network.cc and timers.cc register for an object are safe to call on any value.
use sdl_atf.Common.{ℕ}
use sdl_atf.Lua.{LuaApi, AllTyped, raises, ◌&◌, ◌&◌}
use sdl_atf.Network.Qt.{QtNetwork}
use sdl_atf.Network.Connect.{tcp_socket_connect, web_socket_open}
use sdl_atf.Network.Sockets.{
  tcp_socket_read, tcp_socket_read_all, tcp_socket_write, tcp_socket_close, tcp_socket_delete,
  tcp_server_listen, tcp_server_get_connection, tcp_server_delete, web_socket_close,
  web_socket_write, web_socket_binarywrite, web_socket_delete, luaopen_network,
  tcp_socket_functions, tcp_server_functions, web_socket_functions,
}

module _ {W C X K : Type 0} (q : QtNetwork W C X K) (l : LuaApi) where
  -- Every function that luaopen_network registers for the objects of one of its three classes, the
  -- one for the garbage collector included, raises an error and does nothing else if it is called
  -- with a first argument that is not an object of that class.
  pub luaopen_network-AllTyped : (fuel : ℕ) → AllTyped l (luaopen_network q l fuel)
  unfolding luaopen_network tcp_socket_functions tcp_server_functions web_socket_functions
      tcp_socket_connect tcp_socket_read tcp_socket_read_all tcp_socket_write tcp_socket_close
      tcp_socket_delete tcp_server_listen tcp_server_get_connection tcp_server_delete
      web_socket_open web_socket_close web_socket_write web_socket_binarywrite web_socket_delete
  luaopen_network-AllTyped fuel =
      (raises _ _ & raises _ _ & raises _ _ & tt)
      & (raises _ _ & raises _ _ & raises _ _ & raises _ _ & raises _ _ & raises _ _ & tt)
      & (raises _ _ & raises _ _ & raises _ _ & raises _ _ & raises _ _ & tt)
      & tt
