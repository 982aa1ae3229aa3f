-- ===== src/Tests/Scripts.antt =====
-- A script that downloads a log of the server.
use sdl_atf.Common.{
  refl, [], ◌∷◌, ◌++◌, Bytes, codes, some, arith, lacks, true, bytes_eq, if◌then◌else◌, ◌==◌,
}
use sdl_atf.Protocol.{type_string}
use sdl_atf.Client.Connection.{RpcClient, value}
use sdl_atf.Client.Calls.{k_tmp_path}
use sdl_atf.Utils.Host.{join_path}
use sdl_atf.Utils.FileHandlers.{handle_file_content}
use sdl_atf.Transfer.{wanted, Serves}
use sdl_atf.Lua.{integer, text, userdata, reference}
use sdl_atf.LuaLib.Remote.{Remotes, lua_file_call, remote_client_class}
use sdl_atf.LuaLib.Remote.Calling.{IsArray}
use sdl_atf.LuaLib.Remote.Downloading.{Downloaded, lua_file_call-Downloaded}
use sdl_atf.Tests.World.{
  Disk, store_at, store_at_self, files, files-IsWorking, no_files, plain_cast,
  plain_cast-IsLexicalCast, enough_memory,
}
use sdl_atf.Tests.Lua.{Tables, plain_lua, plain_lua-IsLuaApi}

abbrev log_text : Bytes
log_text = codes "started"

abbrev server_disk : Disk
server_disk = store_at no_files (join_path 0 (codes "/log") (codes "core")) (some log_text)

abbrev near : RpcClient (Unit {0})
near = record {
  call =
      λ c name ps. (value (handle_file_content plain_cast files 0 enough_memory server_disk ps), c);
  is_connected = λ c. true;
}

near-Serves : Serves near plain_cast files 0 enough_memory server_disk
near-Serves = record { connected = λ c. refl; serves = λ c ps. refl }

-- The table 0 is the array of the tables 1 and 2, the path and the name.
abbrev arguments : Tables
arguments = record {
  elements = λ n. reference 1 ∷ reference 2 ∷ [];
  field = λ n name.
      if bytes_eq name (codes "type")
      then integer type_string
      else text (if n == 1 then codes "/log" else codes "core");
}

arguments-IsArray :
    IsArray (plain_lua arguments) (reference 0) (wanted (codes "/log") (codes "core"))
unfolding lacks bytes_eq
arguments-IsArray = record {
  count = refl;
  entries = (refl, refl, refl, refl, (refl, refl, refl, refl, tt));
}

abbrev script_clients : Remotes (Unit {0}) Disk
script_clients = record { clients = λ n. tt; next = 2; disk = no_files }

lua_file_call-Downloaded_example :
    Downloaded near files (plain_lua arguments) (k_tmp_path ++ codes "core") log_text (
      lua_file_call near files
        (plain_lua arguments)
        8
        script_clients
        (userdata remote_client_class 1 ∷ text (codes "file_content") ∷ reference 0 ∷ []))
unfolding lacks
lua_file_call-Downloaded_example =
    lua_file_call-Downloaded near files files-IsWorking plain_cast plain_cast-IsLexicalCast files 0
      enough_memory server_disk (codes "/log") (codes "core") log_text near-Serves
      (store_at_self no_files (join_path 0 (codes "/log") (codes "core")) (some log_text))
      (omega arith) (λ n h. refl) (plain_lua arguments) (plain_lua-IsLuaApi arguments) 8
      script_clients 1 (reference 0) (omega arith) refl arguments-IsArray
