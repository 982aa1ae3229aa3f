-- ===== src/Tests/Servers.antt =====
-- The server's program from its start to its end, and the end of a broker.
use sdl_atf.Common.{
  ℕ, ◌%◌, ◌==◌, ◌≡◌, refl, Bool, true, none, some, List, [], ◌∷◌, Bytes, codes, arith,
  if◌then◌else◌,
}
use sdl_atf.Protocol.Decimal.{decimal}
use sdl_atf.Server.Plugins.{Manager, empty_manager, load_plugins, plugins_among, files_among}
use sdl_atf.Server.Main.{
  Machine, destroy_plugins, count, server_main, serves, exits, bound_by_all, makes_none,
  destroy_plugins-load_plugins, server_main-decimal,
}
use sdl_atf.Broker.State.{Addresses, Broker}
use sdl_atf.Broker.Calls.{new_context}
use sdl_atf.Broker.Destroying.{destroy_broker, is_empty, destroy_broker_lem}
use sdl_atf.Tests.World.{wire}
use sdl_atf.Tests.Systems.{any_loader}

abbrev folder_files : List Bytes
folder_files = codes "a.so" ∷ codes "b.txt" ∷ codes "c.so" ∷ []

destroy_plugins-load_plugins_example :
    let m : Manager = load_plugins any_loader empty_manager (codes "d") folder_files in
    count (codes "d/c.so") (destroy_plugins m.loaded_plugins m.handles).1
    ≡ count (codes "d/c.so") (files_among (makes_none any_loader) (codes "d") folder_files)
destroy_plugins-load_plugins_example =
    destroy_plugins-load_plugins any_loader (codes "d") folder_files (codes "d/c.so")

abbrev machine : Machine
machine = record {
  loader = any_loader;
  directory_names = λ name. some folder_files;
  is_directory = λ name. true;
  can_listen = λ port. true;
  bound_by = λ plugin. codes "open" ∷ codes "close" ∷ [];
}

server_main-decimal_example :
    let port : ℕ = if 70000 % 65536 == 0 then 5555 else 70000 % 65536 in
    server_main machine (decimal 70000 ∷ []) (codes "d") ≡ (
      if machine.can_listen port
      then serves port (
          codes "client_connected"
          ∷ bound_by_all machine (plugins_among machine.loader (codes "d") folder_files))
      else exits 0)
server_main-decimal_example =
    server_main-decimal machine 70000 (codes "d") folder_files (omega arith) refl refl

-- Every text is the address 1.
abbrev all_one : Addresses
all_one = record { make_address = λ text. some 1; to_text = λ ip. codes "::1" }

abbrev connected_broker : Broker (Bool × List Bytes)
connected_broker = record {
  listener_context = (record { address = 1; port = 80 }, new_context) ∷ [];
  msg_queue = [];
  stopped = [];
}

destroy_broker_lem_example :
    destroy_broker wire all_one connected_broker
    ≡ (if is_empty connected_broker.listener_context then some connected_broker else none)
destroy_broker_lem_example =
    destroy_broker_lem wire all_one connected_broker (refl, omega arith, tt)
