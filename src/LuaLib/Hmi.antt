-- ===== src/LuaLib/Hmi.antt =====
-- hmi_adapter_client_lua_wrapper.cc: `HmiAdapterClient` as a Lua object.
pub mod Addressing
use sdl_atf.Common.{
  ℕ, suc, ℤ, Bool, Option, none, some, List, [], ◌∷◌, Bytes, codes, if◌then◌else◌, ◌==◌, take,
  length, ◌-◌,
}
use sdl_atf.Protocol.{ParameterType}
use sdl_atf.Client.Connection.{RpcClient, Result, returned, threw}
use sdl_atf.Hmi.Adapter.{Adapter, new_adapter, connect, send, destroy}
use sdl_atf.Lua
use sdl_atf.Lua.{
  Value, integer, userdata, LuaApi, Called, Function, Metatable, ◌>>=◌, arg, from_top, give, push,
}
use sdl_atf.LuaLib.Parameters.{Reading, std_string, with_reading, build_tcp_params}
use sdl_atf.LuaLib.Remote.{Remotes, set_client, remote_client_class}

abbrev pub hmi_adapter_class : Bytes
hmi_adapter_class = codes "HmiAdapterClient"

-- The remote clients, and the adapters by their addresses. An adapter points to a remote client, so
-- that what it keeps of the connection itself is taken from there.
pub record Adapters (C S : Type 0) : Type 0 where
  pub remotes : Remotes C S
  pub adapters : ℕ → Adapter C
  pub client_of : ℕ → ℕ
  pub next_adapter : ℕ

-- The adapter `o` with the connection of its client as it is now, and its return into the state.
abbrev pub load : {C S : Type 0} → Adapters C S → ℕ → Adapter C
load w o = record (w.adapters o) { remote = w.remotes.clients (w.client_of o) }

abbrev pub keep : {C S : Type 0} → Adapters C S → ℕ → Adapter C → Adapters C S
keep w o a = record w {
  remotes = set_client w.remotes (w.client_of o) a.remote;
  adapters = λ n. if n == o then a else w.adapters n;
}

abbrev new_entry : {C S : Type 0} → Adapters C S → ℕ → List ParameterType → Adapters C S
new_entry w client tcp_params = record w {
  adapters = λ n.
      if n == w.next_adapter
      then new_adapter (w.remotes.clients client) tcp_params
      else w.adapters n;
  client_of = λ n. if n == w.next_adapter then client else w.client_of n;
  next_adapter = suc w.next_adapter;
}

module _ {C S : Type 0} (rpc : RpcClient C) (l : LuaApi) where
  unfoldable pub create_sdl_remote_test_adapter : Function (Adapters C S)
  create_sdl_remote_test_adapter w stack = do
    library ← l.check_table (arg 1 stack)
    with_reading (build_tcp_params l (from_top 1 stack)) λ tcp_params. do
      client ← l.check_udata remote_client_class (arg 2 (take (length stack - 1) stack))
      give (new_entry w client tcp_params) 1
          (push (userdata hmi_adapter_class w.next_adapter) (take (length stack - 2) stack))

  -- `delete instance`
  unfoldable pub destroy_sdl_remote_test_adapter : Function (Adapters C S)
  destroy_sdl_remote_test_adapter w stack = do
    o ← l.check_udata hmi_adapter_class (arg 1 stack)
    give (record w { remotes = set_client w.remotes (w.client_of o) (destroy rpc (load w o)) }) 0
        stack

  abbrev connect_result :
      Adapters C S → ℕ → List Value → Adapter C × Result (Unit {0}) → Called (Adapters C S)
  connect_result w o stack (a, returned u) = give (keep w o a) 0 stack
  connect_result w o stack (a, threw) = Lua.threw

  -- `starts`: the listener thread starts, and no slot of `connected` throws.
  unfoldable pub lua_connect : Bool → Function (Adapters C S)
  lua_connect starts w stack = do
    o ← l.check_udata hmi_adapter_class (arg 1 stack)
    connect_result w o stack (connect rpc starts (load w o))

  abbrev write_result : Adapters C S → ℕ → List Value → Adapter C × Result ℤ → Called (Adapters C S)
  write_result w o stack (a, returned result) = give (keep w o a) 1 (push (integer result) stack)
  write_result w o stack (a, threw) = Lua.threw

  unfoldable pub lua_write : Function (Adapters C S)
  lua_write w stack = do
    o ← l.check_udata hmi_adapter_class (arg 1 stack)
    with_reading (std_string (l.to_string (from_top 1 stack)))
        λ message. write_result w o stack (send rpc (load w o) message)

  unfoldable pub register_sdl_remote_test_adapter : Bool → Metatable (Adapters C S)
  unfolding lua_connect lua_write destroy_sdl_remote_test_adapter
  register_sdl_remote_test_adapter starts = record {
    class = hmi_adapter_class;
    index = (codes "connect", lua_connect starts) ∷ (codes "write", lua_write) ∷ [];
    events = (codes "__gc", destroy_sdl_remote_test_adapter) ∷ [];
  }
