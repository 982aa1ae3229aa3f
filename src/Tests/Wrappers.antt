-- ===== src/Tests/Wrappers.antt =====
-- Remote clients and adapters that a script makes, and all the libraries.
use sdl_atf.Common.{
  ◌%◌, ℕ, ◌≡◌, refl, pos, Bool, true, false, some, List, [], ◌∷◌, Bytes, codes, before, lacks,
  arith, if◌then◌else◌, ◌==◌,
}
use sdl_atf.Protocol.{ParameterType, pair, success, type_string}
use sdl_atf.Client.Connection.{RpcLink, Outcome, value, settle}
use sdl_atf.Client.Calls.{content_call}
use sdl_atf.Broker.State.{Addresses, empty_broker}
use sdl_atf.Lua.{Value, nil, integer, text, userdata, reference, AllTyped}
use sdl_atf.Lua
use sdl_atf.Timers.{QtTimers, luaopen_timers}
use sdl_atf.Network.Sockets.{luaopen_network}
use sdl_atf.Xml.Tables.{luaopen_xml}
use sdl_atf.Ssl.Session.{luaopen_luaopenssl}
use sdl_atf.LuaLib.Parameters.{got, build_tcp_params}
use sdl_atf.LuaLib.Remote.{
  Remotes, set_client, lua_content_call, remote_client_class, register_sdl_remote_client,
}
use sdl_atf.LuaLib.Remote.Calling.{IsArray, lua_content_call_lem}
use sdl_atf.LuaLib.Hmi.{register_sdl_remote_test_adapter}
use sdl_atf.LuaLib.Hmi.Addressing.{Addressed, build_tcp_params-Addressed}
use sdl_atf.Libraries.{libraries-AllTyped}
use sdl_atf.Tests.World.{
  Disk, files, no_files, plain_cast, plain_cast-IsLexicalCast, scripted, wire,
}
use sdl_atf.Tests.Lua.{Tables, plain_lua, plain_lua-IsLuaApi}
use sdl_atf.Tests.Network.{silent}
use sdl_atf.Tests.Bindings.{small_document, one_bio}

abbrev begins : ℕ → Bytes → Bool
begins c [] = false
begins c (x ∷ xs) = x == c

-- The table 0 is the array of the table 1, a parameter, and the table 2 an address.
abbrev tables : Tables
tables = record {
  elements = λ n. reference 1 ∷ [];
  field = λ n name.
      if n == 1
      then (if begins b't' name then integer type_string else text (codes "/tmp"))
      else (if begins b'h' name then text (codes "::1") else integer (pos 8087));
}

abbrev one_parameter : List ParameterType
one_parameter = pair (codes "/tmp") type_string ∷ []

one_parameter-IsArray : IsArray (plain_lua tables) (reference 0) one_parameter
unfolding lacks
one_parameter-IsArray = record { count = refl; entries = (refl, refl, refl, refl, tt) }

-- Both clients have the same answers to come; the first is called.
abbrev one_answer : List Outcome
one_answer = value (pair (codes "done") success) ∷ []

abbrev clients : Remotes (List Outcome) Disk
clients = record { clients = λ n. one_answer; next = 2; disk = no_files }

lua_content_call_lem_example :
    lua_content_call scripted files
      (plain_lua tables)
      clients
      (userdata remote_client_class 1 ∷ text (codes "folder_exists") ∷ reference 0 ∷ [])
    ≡ Lua.returned (set_client clients 1 []) (integer success ∷ text (before 0 (codes "done")) ∷ [])
unfolding content_call settle lacks
lua_content_call_lem_example =
    lua_content_call_lem (plain_lua tables) (plain_lua-IsLuaApi tables) scripted files clients 1
      (codes "folder_exists") (reference 0) one_parameter [] (pair (codes "done") success) refl
      one_parameter-IsArray refl

abbrev one_address : Addresses
one_address = record { make_address = λ address. some 1; to_text = λ ip. [] }

build_tcp_params-Addressed_example :
    (ps : List ParameterType) × (build_tcp_params (plain_lua tables) (reference 2) ≡ got ps)
    × Addressed plain_cast
        (λ code. [])
        wire
        one_address
        empty_broker
        ps
        (codes "::1")
        (pos (8087 % 65536))
        (codes "{}")
unfolding lacks
build_tcp_params-Addressed_example =
    build_tcp_params-Addressed plain_cast (λ code. []) wire one_address empty_broker
      (plain_lua tables) (plain_lua-IsLuaApi tables) plain_cast-IsLexicalCast (reference 2)
      (codes "::1") 8087 (codes "{}") refl refl refl (omega arith)

abbrev still : QtTimers ℕ
still = record {
  new_precise_timer = λ w. (w, 0);
  start_with = λ w o msec. w;
  start = λ w o. w;
  stop = λ w o. w;
  interval = λ w o. pos 0;
  set_interval = λ w o msec. w;
  set_single_shot = λ w o single. w;
  delete_timer = λ w o. w;
}

abbrev one_link : RpcLink (List Outcome)
one_link = record {
  open_client = λ ip port. some one_answer;
  set_timeout = λ c ms. c;
  call_plain = λ c name. (value (pair [] success), c);
  close_client = λ c. c;
}

libraries-AllTyped_example :
    AllTyped (plain_lua tables) (luaopen_network silent (plain_lua tables) 5)
    × AllTyped (plain_lua tables) (luaopen_timers still (plain_lua tables))
    × AllTyped (plain_lua tables) (luaopen_xml small_document (plain_lua tables) 1 5)
    × AllTyped (plain_lua tables) (luaopen_luaopenssl (one_bio true) (plain_lua tables))
    × AllTyped
        (plain_lua tables)
        (register_sdl_remote_client scripted files (plain_lua tables) one_link 5 ∷ [])
    × AllTyped
        (plain_lua tables)
        (register_sdl_remote_test_adapter {S = Disk} scripted (plain_lua tables) true ∷ [])
libraries-AllTyped_example =
    libraries-AllTyped scripted files one_link (plain_lua tables) silent still small_document
      (one_bio true) 1 5 true
