-- ===== src/Server/Main.antt =====
-- main.cc as a whole, with the listing of the folder and the end of the plugins in
-- remote_adapter_plugin_manager.cc.
use sdl_atf.Common.{
  ℕ, ◌+◌, ◌-◌, ◌≡◌, refl, ap, ◌∙◌, Bool, true, false, Option, none, some, List, [], ◌∷◌, ◌++◌,
  arith, Bytes, codes, bytes_eq, bytes_eq_iff, if◌then◌else◌, reverse, reverse-cons, append-nil,
  append_assoc, sym, ◌%◌, ◌==◌, ◌^◌, ◌<◌, ◌&&◌, not,
}
use sdl_atf.Server.Plugins.{
  Loader, Manager, empty_manager, load_plugins, for_each_plugin, plugins_among, load_plugins_lem,
  files_among, stays_open,
}
use sdl_atf.Server.Port.{Choice, usage, at, overflown, choose_port, choose_port-decimal}
use sdl_atf.Protocol.Decimal.{decimal}

-- The handle of the library is closed that `dlopen` gave for this path.
unfoldable pub close_handle : Bytes → List Bytes → List Bytes
close_handle path [] = []
close_handle path (h ∷ hs) = if bytes_eq path h then hs else h ∷ close_handle path hs

-- What happens to a plugin at its end.
pub data Ending : Type 0 where
  deleted closed : Bytes → Ending

-- The destroyers of the plugins, one after the other: what they did, and the handles that are left.
unfoldable pub destroy_plugins : List Bytes → List Bytes → List Ending × List Bytes
unfolding close_handle
destroy_plugins [] handles = ([], handles)
destroy_plugins (plugin ∷ rest) handles =
    let (endings, left) = destroy_plugins rest (close_handle plugin handles) in
    (deleted plugin ∷ closed plugin ∷ endings, left)

-- `boost::filesystem`: the names in a folder, `none` where the iterator's constructor throws; and
-- whether a server can be opened at a port, and what `Bind` of a plugin binds.
pub record Machine : Type 0 where
  pub loader : Loader
  pub directory_names : Bytes → Option (List Bytes)
  pub is_directory : Bytes → Bool
  pub can_listen : ℕ → Bool
  pub bound_by : Bytes → List Bytes

-- `list_files`, which looks whether there is a folder behind the making of its iterator.
unfoldable pub list_files : Machine → Bytes → Option (List Bytes)
list_files machine name = elim (machine.directory_names name) [
  | none ↦ none
  | some names ↦ some (if machine.is_directory name then names else [])
]

-- How `main` goes on: it ends with a code, or serves for ever the calls of these names.
pub data Running : Type 0 where
  exits : ℕ → Running
  serves : ℕ → List Bytes → Running
  -- nothing is defined
  undefined : Running

abbrev with_plugins : Machine → ℕ → List Bytes → Running
with_plugins machine port plugins =
    if machine.can_listen port
    then serves port (
        for_each_plugin (λ bound plugin. bound ++ machine.bound_by plugin)
          (codes "client_connected" ∷ []) plugins)
    else exits 0

abbrev in_folder : Machine → ℕ → Bytes → Option (List Bytes) → Running
in_folder machine port cwd none = exits 0
in_folder machine port cwd (some names) =
    with_plugins machine port (load_plugins machine.loader empty_manager cwd names).loaded_plugins

abbrev at_port : Machine → Bytes → Choice → Running
at_port machine cwd usage = exits 1
at_port machine cwd overflown = undefined
at_port machine cwd (at port) = in_folder machine port cwd (list_files machine cwd)

-- `main`, from the arguments and the working directory.
unfoldable pub server_main : Machine → List Bytes → Bytes → Running
unfolding list_files
server_main machine args cwd = at_port machine cwd (choose_port args)

-- All that the plugins of a list bind.
pub bound_by_all : Machine → List Bytes → List Bytes
bound_by_all machine [] = []
bound_by_all machine (p ∷ ps) = machine.bound_by p ++ bound_by_all machine ps

for_each_plugin_lem :
    (machine : Machine) (bound plugins : List Bytes)
    → for_each_plugin (λ bound plugin. bound ++ machine.bound_by plugin) bound plugins
      ≡ bound ++ bound_by_all machine plugins
unfolding for_each_plugin bound_by_all
for_each_plugin_lem machine bound [] = sym (append-nil bound)
for_each_plugin_lem machine bound (p ∷ ps) =
    for_each_plugin_lem machine (bound ++ machine.bound_by p) ps
    ∙ append_assoc bound (machine.bound_by p) (bound_by_all machine ps)

-- How often a library is open.
pub count : Bytes → List Bytes → ℕ
count x [] = 0
count x (y ∷ ys) = (if bytes_eq x y then 1 else 0) + count x ys

count-append : (x : Bytes) (ys zs : List Bytes) → count x (ys ++ zs) ≡ count x ys + count x zs
unfolding count
count-append x [] zs = omega arith
count-append x (y ∷ ys) zs = omega (arith, count-append x ys zs)

count-reverse : (x : Bytes) (ys : List Bytes) → count x (reverse ys) ≡ count x ys
unfolding count
count-reverse x [] = refl
count-reverse x (y ∷ ys) =
    ap (count x) (reverse-cons y ys)
    ∙ count-append x (reverse ys) (y ∷ [])
    ∙ omega (arith, count-reverse x ys)

count-close_handle :
    (x p : Bytes) (hs : List Bytes)
    → count x (close_handle p hs) ≡ count x hs - (if bytes_eq x p then 1 else 0)
unfolding count close_handle
count-close_handle x p [] = omega arith
count-close_handle x p (h ∷ hs) =
    ground (arith, bytes_eq_iff p h, bytes_eq_iff x h, bytes_eq_iff x p, count-close_handle x p hs)

count-destroy_plugins :
    (x : Bytes) (ps hs : List Bytes) → count x (destroy_plugins ps hs).1 ≡ count x hs - count x ps
unfolding count destroy_plugins
count-destroy_plugins x [] hs = omega arith
count-destroy_plugins x (p ∷ ps) hs =
    omega (arith, count-destroy_plugins x ps (close_handle p hs), count-close_handle x p hs)

-- A library with both functions whose `create_plugin` makes no plugin.
abbrev pub makes_none : Loader → Bytes → Bool
makes_none ld path = stays_open ld path && not (ld.create path)

count-split :
    (x p : Bytes) (open_one created : Bool) (a b c : List Bytes)
    → count x a ≡ count x b + count x c
    → count x (if open_one then p ∷ a else a)
      ≡ count x (if open_one && created then p ∷ b else b)
        + count x (if open_one && not created then p ∷ c else c)
unfolding count
count-split x p false created a b c h = h
count-split x p true true a b c h = omega (arith, h)
count-split x p true false a b c h = omega (arith, h)

count-files_among :
    (ld : Loader) (x dir : Bytes) (files : List Bytes)
    → count x (files_among (stays_open ld) dir files)
      ≡ count x (plugins_among ld dir files) + count x (files_among (makes_none ld) dir files)
unfolding files_among count
count-files_among ld x dir [] = refl
count-files_among ld x dir (f ∷ fs) =
    let p : Bytes = dir ++ b'/' ∷ f in
    count-split x p (stays_open ld p) (ld.create p) (files_among (stays_open ld) dir fs)
      (plugins_among ld dir fs) (files_among (makes_none ld) dir fs) (count-files_among ld x dir fs)

-- Once the plugins that LoadPlugins has loaded from a folder are destroyed, every library was closed
-- as often as it was opened, but for those with both functions whose `create_plugin` gives the null
-- pointer: each of these is open still, since nothing closes it.
pub destroy_plugins-load_plugins :
    (ld : Loader) (dir : Bytes) (files : List Bytes) (x : Bytes)
    → let m : Manager = load_plugins ld empty_manager dir files in
      count x (destroy_plugins m.loaded_plugins m.handles).1
      ≡ count x (files_among (makes_none ld) dir files)
unfolding count
destroy_plugins-load_plugins ld dir files x =
    let m : Manager = load_plugins ld empty_manager dir files in
    let opened : List Bytes = files_among (stays_open ld) dir files in
    let (loaded, handles) = load_plugins_lem ld empty_manager dir files in
    let held : count x m.handles ≡ count x opened =
      ap (count x) (handles ∙ append-nil (reverse opened)) ∙ count-reverse x opened in
    let made : count x m.loaded_plugins ≡ count x (plugins_among ld dir files) =
      ap (count x) loaded in
    omega
      (arith, count-destroy_plugins x m.loaded_plugins m.handles, count-files_among ld x dir files)

list_files_lem :
    (machine : Machine) (name : Bytes) (names : List Bytes)
    → machine.directory_names name ≡ some names
    → machine.is_directory name ≡ true
    → list_files machine name ≡ some names
unfolding list_files
list_files_lem machine name names listed folder = rw (listed, list_files) (rw folder refl)

-- Started with one argument that is the decimal text of a number below 2 ^ 31, in a folder that can be
-- listed, the server listens on that number modulo 65536, or on 5555 where that is 0, and serves client_connected
-- and all that the plugins of the folder bind, in the order of the files; where it cannot listen, it
-- ends with the code 0.
pub server_main-decimal :
    (machine : Machine) (n : ℕ) (cwd : Bytes) (names : List Bytes)
    → n < 2 ^ 31
    → machine.directory_names cwd ≡ some names
    → machine.is_directory cwd ≡ true
    → let port : ℕ = if n % 65536 == 0 then 5555 else n % 65536 in
      server_main machine (decimal n ∷ []) cwd ≡ (
        if machine.can_listen port
        then serves port (
            codes "client_connected"
            ∷ bound_by_all machine (plugins_among machine.loader cwd names))
        else exits 0)
unfolding server_main
server_main-decimal machine n cwd names small listed folder =
    let port : ℕ = if n % 65536 == 0 then 5555 else n % 65536 in
    let first : List Bytes = codes "client_connected" ∷ [] in
    let loaded = (load_plugins_lem machine.loader empty_manager cwd names).0 in
    rw (choose_port-decimal n small) (
      rw (list_files_lem machine cwd names listed folder, at_port)
        (ap (λ bound. if machine.can_listen port then serves port bound else exits 0)
          (ap (for_each_plugin (λ bound plugin. bound ++ machine.bound_by plugin) first) loaded
            ∙ for_each_plugin_lem machine first (plugins_among machine.loader cwd names))))
