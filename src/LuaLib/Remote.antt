-- ===== src/LuaLib/Remote.antt =====
-- remote_client_lua_wrapper.cc: `RemoteClient` as a Lua object.
pub mod Calling
pub mod Downloading
use sdl_atf.Common.{
  ℕ, suc, ℤ, pos, Bool, Option, none, some, List, [], ◌∷◌, ◌++◌, Bytes, codes, before,
  if◌then◌else◌, ◌==◌, to_unsigned, take, length, ◌-◌,
}
use sdl_atf.Files.{FileSystem}
use sdl_atf.Protocol.{ParameterType, ResponseType}
use sdl_atf.Client.Connection.{RpcClient, RpcLink, Result, returned, threw}
use sdl_atf.Client.Calls.{
  Download, done, raised, no_fuel, content_call, file_call, remote_connected, new_remote_client,
}
use sdl_atf.Lua.{
  Value, nil, boolean, integer, text, userdata, LuaApi, Called, Function, Metatable, running, ◌>>=◌,
  arg, from_top, give, push,
}
use sdl_atf.Lua
use sdl_atf.LuaLib.Parameters.{
  Reading, got, lua_error, exception, std_string, with_reading, get_rpc_parameters,
}

abbrev pub remote_client_class : Bytes
remote_client_class = codes "RemoteClient"

-- The objects by their addresses, the next address, and the files of the client.
pub record Remotes (C S : Type 0) : Type 0 where
  pub clients : ℕ → C
  pub next : ℕ
  pub disk : S

abbrev pub set_client : {C S : Type 0} → Remotes C S → ℕ → C → Remotes C S
set_client w o c = record w { clients = λ n. if n == o then c else w.clients n }

module _ {C S : Type 0} (rpc : RpcClient C) (fs : FileSystem S) (l : LuaApi) where
  -- The response as two values: the code, and the text up to its first NUL byte.
  abbrev pub push_response : Remotes C S → ResponseType → List Value → Called (Remotes C S)
  push_response w response stack =
      give w 2 (push (text (before 0 response.first)) (push (integer response.second) stack))

  abbrev content_result :
      Remotes C S → ℕ → List Value → Result ResponseType × C → Called (Remotes C S)
  content_result w o stack (returned response, c) = push_response (set_client w o c) response stack
  content_result w o stack (threw, c) = Lua.threw

  abbrev pub file_result : Remotes C S → ℕ → List Value → Download C S → Called (Remotes C S)
  file_result w o stack (done c s response) =
      push_response (record (set_client w o c) { disk = s }) response stack
  file_result w o stack raised = Lua.threw
  file_result w o stack no_fuel = running

  -- The object is made where neither constructor throws.
  abbrev constructed : RpcLink C → Reading Bytes → ℕ → Option C
  constructed link (got ip) port = elim (link.open_client ip port) [
    | none ↦ none
    | some connection ↦ elim (new_remote_client link connection) [
      | returned c ↦ some c
      | threw ↦ none
    ]
  ]
  constructed link lua_error port = none
  constructed link exception port = none

  abbrev created : Remotes C S → List Value → Option C → Called (Remotes C S)
  created w stack none = give w 1 (push nil stack)
  created w stack (some c) =
      give (record (set_client w w.next c) { next = suc w.next }) 1
        (push (userdata remote_client_class w.next) stack)

  unfoldable pub create_sdl_remote_client : RpcLink C → Function (Remotes C S)
  create_sdl_remote_client link w stack = do
    library ← l.check_table (arg 1 stack)
    created w (take (length stack - 2) stack) (
        constructed link (std_string (l.to_string (from_top 2 stack)))
          (to_unsigned 32 (l.to_integer (from_top 1 stack))))

  -- `delete instance`
  unfoldable pub destroy_sdl_remote_client : RpcLink C → Function (Remotes C S)
  destroy_sdl_remote_client link w stack = do
    o ← l.check_udata remote_client_class (arg 1 stack)
    give (set_client w o (link.close_client (w.clients o))) 0 stack

  unfoldable pub lua_connected : Function (Remotes C S)
  lua_connected w stack = do
    o ← l.check_udata remote_client_class (arg 1 stack)
    give w 1 (push (boolean (remote_connected rpc (w.clients o))) stack)

  unfoldable pub lua_content_call : Function (Remotes C S)
  lua_content_call w stack = do
    o ← l.check_udata remote_client_class (arg 1 stack)
    with_reading (std_string (l.to_string (from_top 2 stack))) λ rpc_name.
        with_reading (get_rpc_parameters l (from_top 1 stack)) λ parameters.
          content_result w o stack (content_call rpc (w.clients o) rpc_name parameters)

  unfoldable pub lua_file_call : ℕ → Function (Remotes C S)
  lua_file_call fuel w stack = do
    o ← l.check_udata remote_client_class (arg 1 stack)
    with_reading (std_string (l.to_string (from_top 2 stack))) λ rpc_name.
        with_reading (get_rpc_parameters l (from_top 1 stack)) λ parameters.
          file_result w o stack (file_call rpc fs rpc_name parameters fuel (w.clients o) w.disk)

  unfoldable pub register_sdl_remote_client : RpcLink C → ℕ → Metatable (Remotes C S)
  unfolding lua_connected lua_content_call lua_file_call destroy_sdl_remote_client
  register_sdl_remote_client link fuel = record {
    class = remote_client_class;
    index =
        (codes "connected", lua_connected)
        ∷ (codes "call", lua_content_call)
        ∷ (codes "file_call", lua_file_call fuel)
        ∷ [];
    events = (codes "__gc", destroy_sdl_remote_client link) ∷ [];
  }
