-- ===== src/Libraries.antt =====
-- The libraries of Lua functions together: what `luaopen_network`, `luaopen_timers`, `luaopen_xml`,
-- `luaopen_luaopenssl` and the wrappers of the remote adapter register.
use sdl_atf.Common.{Bool, ℕ, [], ◌∷◌}
use sdl_atf.Files.{FileSystem}
use sdl_atf.Client.Connection.{RpcClient, RpcLink}
use sdl_atf.Lua.{LuaApi, AllTyped, raises, ◌&◌}
use sdl_atf.Network.Qt.{QtNetwork}
use sdl_atf.Network.Sockets.{luaopen_network}
use sdl_atf.Network.Sockets.Typed.{luaopen_network-AllTyped}
use sdl_atf.Timers.{QtTimers, luaopen_timers, luaopen_timers-AllTyped}
use sdl_atf.Xml.Library.{Libxml}
use sdl_atf.Xml.Nodes.{
  xml_close, doc_root_node, doc_write, doc_create_root_node, node_text, node_name, node_attr,
  node_parent, node_remove, node_eq, node_add_child,
}
use sdl_atf.Xml.Tables.{luaopen_xml, doc_xpath, node_xpath, node_children, node_attributes}
use sdl_atf.Ssl.Library.{Openssl}
use sdl_atf.Ssl.Context.{ctx_init_ssl_context, ctx_new_ssl, ctx_add_certificate, ctx_free}
use sdl_atf.Ssl.Session.{
  luaopen_luaopenssl, ssl_set_info_callback, ssl_set_bios, ssl_prepare_to_handshake,
  ssl_is_handshake_finished, ssl_perform_handshake, ssl_check_data_to_decrypt, ssl_decrypt,
  ssl_encrypt, ssl_print_certificates_info, ssl_free, bio_check_data_to_read, bio_read_data,
  bio_write_data,
}
use sdl_atf.LuaLib.Remote.{
  register_sdl_remote_client, lua_connected, lua_content_call, lua_file_call,
  destroy_sdl_remote_client,
}
use sdl_atf.LuaLib.Hmi.{
  register_sdl_remote_test_adapter, lua_connect, lua_write, destroy_sdl_remote_test_adapter,
}

module _ {W : Type 0} (l : LuaApi) where
  luaopen_xml-AllTyped :
      (x : Libxml W) (unspecified fuel : ℕ) → AllTyped l (luaopen_xml x l unspecified fuel)
  unfolding luaopen_xml xml_close doc_root_node doc_write doc_create_root_node node_text node_name
      node_attr node_parent node_remove node_eq node_add_child doc_xpath node_xpath node_children
      node_attributes
  luaopen_xml-AllTyped x unspecified fuel =
      (raises _ _ & raises _ _ & raises _ _ & raises _ _ & raises _ _ & tt)
      & (raises _ _
          & raises _ _
          & raises _ _
          & raises _ _
          & raises _ _
          & raises _ _
          & raises _ _
          & raises _ _
          & raises _ _
          & raises _ _
          & tt)
      & tt

  luaopen_luaopenssl-AllTyped : (q : Openssl W) → AllTyped l (luaopen_luaopenssl q l)
  unfolding luaopen_luaopenssl ctx_init_ssl_context ctx_new_ssl ctx_add_certificate ctx_free
      ssl_set_info_callback ssl_set_bios ssl_prepare_to_handshake ssl_is_handshake_finished
      ssl_perform_handshake ssl_check_data_to_decrypt ssl_decrypt ssl_encrypt
      ssl_print_certificates_info ssl_free bio_check_data_to_read bio_read_data bio_write_data
  luaopen_luaopenssl-AllTyped q =
      (raises _ _ & raises _ _ & raises _ _ & raises _ _ & tt)
      & (raises _ _
          & raises _ _
          & raises _ _
          & raises _ _
          & raises _ _
          & raises _ _
          & raises _ _
          & raises _ _
          & raises _ _
          & raises _ _
          & tt)
      & (raises _ _ & raises _ _ & raises _ _ & tt)
      & tt

module _ {C S : Type 0} (rpc : RpcClient C) (fs : FileSystem S) (link : RpcLink C)
    (l : LuaApi) where
  wrappers-AllTyped :
      (fuel : ℕ) (starts : Bool)
      → AllTyped l (register_sdl_remote_client rpc fs l link fuel ∷ [])
        × AllTyped l (register_sdl_remote_test_adapter {S = S} rpc l starts ∷ [])
  unfolding register_sdl_remote_client lua_connected lua_content_call lua_file_call
      destroy_sdl_remote_client register_sdl_remote_test_adapter lua_connect lua_write
      destroy_sdl_remote_test_adapter
  wrappers-AllTyped fuel starts =
      ((raises _ _ & raises _ _ & raises _ _ & raises _ _ & tt) & tt)
      & (raises _ _ & raises _ _ & raises _ _ & tt)
      & tt

  -- Every function that the libraries of the interpreter register for an object of one of their
  -- eleven classes (sockets, servers and web sockets; timers; documents and nodes; contexts,
  -- connections and BIOs; remote clients; adapters), those for the garbage collector and for the
  -- comparison included, raises an error before it has done anything if its first argument is not an
  -- object of that class, whatever the arguments are.
  pub libraries-AllTyped :
      {N D X K T V U : Type 0} (n : QtNetwork N D X K) (t : QtTimers T) (x : Libxml V)
      (s : Openssl U) (unspecified fuel : ℕ) (starts : Bool)
      → AllTyped l (luaopen_network n l fuel)
        × AllTyped l (luaopen_timers t l)
        × AllTyped l (luaopen_xml x l unspecified fuel)
        × AllTyped l (luaopen_luaopenssl s l)
        × AllTyped l (register_sdl_remote_client rpc fs l link fuel ∷ [])
        × AllTyped l (register_sdl_remote_test_adapter {S = S} rpc l starts ∷ [])
  libraries-AllTyped n t x s unspecified fuel starts = (
    luaopen_network-AllTyped n l fuel,
    luaopen_timers-AllTyped t l,
    luaopen_xml-AllTyped l x unspecified fuel,
    luaopen_luaopenssl-AllTyped l s,
    (wrappers-AllTyped fuel starts).0,
    (wrappers-AllTyped fuel starts).1,
  )
