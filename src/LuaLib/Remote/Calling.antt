-- ===== src/LuaLib/Remote/Calling.antt =====
-- A call of the remote client from Lua against the same call in C++.
use sdl_atf.Common.{
  ℕ, suc, ◌≡◌, refl, true, some, List, [], ◌∷◌, Bytes, codes, before, before-lacks, lacks, length,
  to_signed,
}
use sdl_atf.Protocol.{ParameterType, ResponseType}
use sdl_atf.Client.Connection.{RpcClient, returned}
use sdl_atf.Client.Calls.{content_call}
use sdl_atf.Files.{FileSystem}
use sdl_atf.Lua.{Value, text, integer, userdata, LuaApi, IsLuaApi}
use sdl_atf.Lua
use sdl_atf.LuaLib.Parameters.{got, parameters_from, get_rpc_parameters}
use sdl_atf.LuaLib.Remote.{Remotes, set_client, lua_content_call, remote_client_class}

-- From the index `i` on, the table has the parameters: each a table with the fields `type` and
-- `value`, the one an `int`, the other a text without NUL bytes.
abbrev pub EntriesFrom : LuaApi → Value → ℕ → List ParameterType → Type 0
EntriesFrom l table i [] = Unit
EntriesFrom l table i (p ∷ ps) =
    (l.get_field (l.raw_get table i) (codes "type") ≡ some (integer p.second))
    × (l.get_field (l.raw_get table i) (codes "value") ≡ some (text p.first))
    × (to_signed 32 p.second ≡ p.second)
    × (lacks 0 p.first ≡ true)
    × EntriesFrom l table (suc i) ps

-- The table is the array of the parameters.
pub record IsArray (l : LuaApi) (table : Value) (ps : List ParameterType) : Type 0 where
  pub count : l.raw_length table ≡ length ps
  pub entries : EntriesFrom l table 1 ps

module _ (l : LuaApi) (laws : IsLuaApi l) where
  parameters_from_lem :
      (table : Value) (i : ℕ) (ps : List ParameterType)
      → EntriesFrom l table i ps
      → parameters_from l table i (length ps) ≡ got ps
  unfolding parameters_from
  parameters_from_lem table i [] h = refl
  parameters_from_lem table i (p ∷ ps) (kind, value, small, plain, rest) =
      rw
        (
          kind,
          value,
          laws.to_string_text p.first,
          before-lacks 0 p.first plain,
          parameters_from_lem table (suc i) ps rest,
          laws.to_integer_integer p.second,
          small,
        )
        refl

  pub get_rpc_parameters_lem :
      (table : Value) (ps : List ParameterType)
      → IsArray l table ps
      → get_rpc_parameters l table ≡ got ps
  unfolding get_rpc_parameters
  get_rpc_parameters_lem table ps array =
      rw array.count (parameters_from_lem table 1 ps array.entries)

  -- `client:call(name, parameters)` from Lua, with the parameters as an array of tables and no NUL
  -- byte in them or in the name, is the call of content_call with these parameters: where that gives
  -- a response, Lua gets its code and its text up to the first NUL byte, and the client has the
  -- connection that the call left.
  pub lua_content_call_lem :
      {C S : Type 0} (rpc : RpcClient C) (fs : FileSystem S) (w : Remotes C S) (o : ℕ)
      (name : Bytes) (table : Value) (ps : List ParameterType) (c : C) (response : ResponseType)
      → lacks 0 name ≡ true
      → IsArray l table ps
      → content_call rpc (w.clients o) name ps ≡ (returned response, c)
      → lua_content_call rpc fs l w (userdata remote_client_class o ∷ text name ∷ table ∷ [])
        ≡ Lua.returned
            (set_client w o c)
            (integer response.second ∷ text (before 0 response.first) ∷ [])
  unfolding lua_content_call
  lua_content_call_lem rpc fs w o name table ps c response plain array e =
      rw
        (
          laws.udata_same remote_client_class o,
          laws.to_string_text name,
          before-lacks 0 name plain,
          get_rpc_parameters_lem table ps array,
          e,
        )
        refl
