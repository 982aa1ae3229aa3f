-- ===== src/Network/Sockets/Closed.antt =====
-- Reading and writing a socket that is not open.
use sdl_atf.Common.{ℕ, ◌≡◌, ℤ, false, [], ◌∷◌, Bytes, refl}
use sdl_atf.Lua.{LuaApi, IsLuaApi, returned, text, integer, userdata}
use sdl_atf.Network.Qt.{QtNetwork}
use sdl_atf.Network.Sockets.{tcp_socket_read, tcp_socket_write, tcp_socket}

module _ {W C X K : Type 0} (q : QtNetwork W C X K) (l : LuaApi) (laws : IsLuaApi l) where
  -- On a socket that is not open, reading and writing leave the socket alone, but they do not give
  -- nothing: `socket:read(n)` gives the number `n`, and `socket:write(s)` the text `s`, which they
  -- were called with.
  tcp_socket_read_closed :
      (w : W) (o : ℕ) (n : ℤ) (s : Bytes)
      → q.is_open w o ≡ false
      → (tcp_socket_read q l w (userdata tcp_socket o ∷ integer n ∷ [])
          ≡ returned w (integer n ∷ []))
        × (tcp_socket_write q l w (userdata tcp_socket o ∷ text s ∷ []) ≡ returned w (text s ∷ []))
  unfolding tcp_socket_read tcp_socket_write
  tcp_socket_read_closed w o n s closed = (
    rw (laws.udata_same tcp_socket o, laws.integer_integer n, closed) refl,
    rw (laws.udata_same tcp_socket o, laws.lstring_text s, closed) refl,
  )
