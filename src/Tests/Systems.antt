-- ===== src/Tests/Systems.antt =====
-- Processes, commands and folders, and a loader of libraries.
use sdl_atf.Common.{
  ℕ, zero, suc, Option, ◌≡◌, ◌⊎◌, refl, pos, Bool, true, false, none, some, [], ◌∷◌, ◌++◌, Bytes,
  codes, arith, ◌==◌, bytes_eq, if◌then◌else◌, lacks, not, ◌&&◌, int_eq,
}
use sdl_atf.Protocol.{success, failed}
use sdl_atf.Server.Plugins.{Loader}
use sdl_atf.Utils.Command.{execute_command, execute_command-exited}
use sdl_atf.Utils.Folders.{Items, file, folder, nil, item, Access, folder_delete}
use sdl_atf.Utils.Folders.Deleting.{allowed, folder_delete_lem}
use sdl_atf.Utils.Starting.{
  Spawner, IsSpawner, start_app, monitor_app, status_of, stopped, continued, killed, pauses, ends,
  start_app_lem, monitor_app_lem,
}
use sdl_atf.Utils.Apps.{Processes, get_app_pids, stop_app}
use sdl_atf.Utils.Apps.Linux.{Proc, on_linux}
use sdl_atf.Utils.Apps.Qnx.{Debug, IsMapped, on_qnx}
use sdl_atf.Utils.Apps.Names.{IsRunning, none_left, process, other, pids_of, get_app_pids-Listing}
use sdl_atf.Protocol.Decimal.{decimal}
use sdl_atf.Utils.Apps.Stopping.{Stops, stop_app-Stops}

-- One process, number 1, which only SIGKILL ends; the state says whether it is there.
abbrev stubborn : Processes Bool
stubborn = record {
  kill = λ alive pid sig. if sig == 9 then (false, true) else (alive, false);
  stat_proc = λ alive pid. alive;
  entries = λ alive. some (if alive then codes "self" ∷ decimal 1 ∷ [] else []);
  app_name = λ alive pid. if alive then codes "core" else [];
  num_threads = λ alive pid held. 1;
}

abbrev files_of : Proc Bool
files_of = record {
  tasks = λ alive pid. some (codes "." ∷ codes "1" ∷ []);
  cmdline = λ alive pid.
      if alive then some ((codes "/bin" ++ b'/' ∷ codes "core") ++ 0 ∷ codes "-x") else none;
  stack = [];
}

abbrev debug_of : Debug Bool
debug_of = record {
  open_as = λ alive pid. alive;
  map_debug_base = λ alive pid. if alive then some (codes "/bin" ++ b'/' ∷ codes "core") else none;
  proc_info = λ alive pid. some 1;
}

running : IsRunning files_of true 1 (codes "core")
unfolding lacks
running = record {
  dir = codes "/bin";
  args = codes "-x";
  cmdline = refl;
  short = omega arith;
  dir_text = refl;
  name_text = refl;
  name_base = refl;
}

mapped : IsMapped debug_of true 1 (codes "core")
unfolding lacks
mapped = record { dir = codes "/bin"; opened = refl; mapped = refl; base = refl }

get_app_pids-Listing_example :
    (get_app_pids (on_linux stubborn files_of) true (codes "core")
      ≡ pids_of (codes "core") ((1, codes "core") ∷ []))
    × (get_app_pids (on_qnx stubborn debug_of) true (codes "core")
        ≡ pids_of (codes "core") ((1, codes "core") ∷ []))
get_app_pids-Listing_example =
    get_app_pids-Listing stubborn files_of debug_of true (codes "self" ∷ decimal 1 ∷ [])
      ((1, codes "core") ∷ []) refl
      (other (codes "self") refl (process 1 (codes "core") running none_left))
      (other (codes "self") refl (process 1 (codes "core") mapped none_left)) (codes "core")

stop_app-Stops_example :
    Stops
      (on_linux stubborn files_of)
      15
      true
      (get_app_pids (on_linux stubborn files_of) true (codes "core"))
      (stop_app (on_linux stubborn files_of) true (codes "core") 15)
stop_app-Stops_example = stop_app-Stops (on_linux stubborn files_of) 15 true (codes "core")

execute_command-exited_example : execute_command (some (codes "a")) (pos 256) ≡ (codes "a", failed)
unfolding lacks
execute_command-exited_example = execute_command-exited (codes "a") 1 refl (omega arith)

-- Everything but removing the folder "d/sub".
abbrev access : Access
access = record {
  opendir = λ path. true;
  stat = λ path. true;
  unlink = λ path. true;
  rmdir = λ path. if bytes_eq path (codes "d/sub") then false else true;
}

abbrev tree : Items
tree = item (codes ".") file (item (codes "f") file (item (codes "sub") (folder nil) nil))

folder_delete_lem_example :
    ((allowed access (codes "d") (folder tree) ≡ true)
      × (folder_delete access (codes "d") (some (folder tree)) ≡ (none, true)))
    ⊎ ((allowed access (codes "d") (folder tree) ≡ false)
        × ((folder_delete access (codes "d") (some (folder tree))).1 ≡ false))
folder_delete_lem_example = folder_delete_lem access (codes "d") tree

abbrev pub any_loader : Loader
any_loader = record {
  dlopen = λ path. true;
  dlsym = λ path name. true;
  create = λ path. not (bytes_eq path (codes "d/c.so"));
}

-- The state is the working directory; every application starts, with the id 7.
abbrev one_app : Spawner Bytes
one_app = record {
  getcwd = λ cwd. cwd;
  chdir = λ cwd path. path;
  posix_spawn = λ cwd name. (cwd, pos 7);
  is_alive = λ cwd pid. true;
  create_monitor = λ cwd pid. cwd;
}

one_app-IsSpawner : IsSpawner one_app
one_app-IsSpawner = record { chdir-getcwd = λ p q. refl; create_monitor_cwd = λ p pid. refl }

start_app_lem_example :
    (one_app.getcwd (start_app one_app (codes "/") (codes "/bin") (codes "core")).0
      ≡ one_app.getcwd (codes "/"))
    × ((start_app one_app (codes "/") (codes "/bin") (codes "core")).1 ≡ (
        if not (
            int_eq failed
              (one_app.posix_spawn (one_app.chdir (codes "/") (codes "/bin")) (codes "core")).1)
          && one_app.is_alive
              (one_app.chdir
                (one_app.posix_spawn (one_app.chdir (codes "/") (codes "/bin")) (codes "core")).0
                (one_app.getcwd (codes "/")))
              (one_app.posix_spawn (one_app.chdir (codes "/") (codes "/bin")) (codes "core")).1
        then success
        else failed))
start_app_lem_example =
    start_app_lem one_app one_app-IsSpawner (codes "/") (codes "/bin") (codes "core")

-- Stopped by SIGSTOP, continued, and then killed by signal 9.
abbrev reports : ℕ → ℕ × Option ℕ
reports zero = (1, some (status_of (stopped 19)))
reports (suc zero) = (2, some (status_of continued))
reports (suc (suc n)) = (3, some (status_of (killed 9 false)))

monitor_app_lem_example : monitor_app reports 3 0 ≡ some 3
monitor_app_lem_example =
    monitor_app_lem reports 2 3 0 3
      (pauses 0 1 3 (stopped 19) tt refl (
        pauses 1 2 3 continued tt refl (ends 2 3 (killed 9 false) (omega arith, omega arith) refl)))
      (omega arith)
