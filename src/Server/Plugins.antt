-- ===== src/Server/Plugins.antt =====
-- remote_adapter_plugin_manager.cc: `RemoteAdapterPluginManager`.
use sdl_atf.Common.{
  ◌≡◌, ◌↔◌, refl, ap, sym, ◌∙◌, Bool, true, false, ◌&&◌, Option, none, some, List, [], ◌∷◌, ◌++◌,
  arith, Bytes, codes, after_last, after_last-splits, after_last-append, lacks, bytes_eq,
  bytes_eq_iff, bytes_eq_refl, Option-cases, inl, inr, drop, if◌then◌else◌, append-nil,
  append_assoc, reverse, reverse-cons,
}

unfoldable pub is_library_file : Bytes → Bool
is_library_file file_path = elim (after_last b'.' file_path) [
  | none ↦ false
  | some extension ↦ bytes_eq extension (codes "so")
]

-- `dlopen` and `dlsym`: whether a file can be opened, and whether it exports a symbol; and whether
-- what its `create_plugin` gives is a plugin and not the null pointer.
pub record Loader : Type 0 where
  pub dlopen : Bytes → Bool
  pub dlsym : Bytes → Bytes → Bool
  pub create : Bytes → Bool

-- `handles` are the libraries that are open, the newest first; a plugin is known by its file.
pub record Manager : Type 0 where
  pub handles : List Bytes
  pub loaded_plugins : List Bytes

abbrev pub empty_manager : Manager
empty_manager = record { handles = []; loaded_plugins = [] }

-- The handle that was opened last is closed.
abbrev dlclose : List Bytes → List Bytes
dlclose handles = drop 1 handles

-- `LoadPlugin`: the open handles, and the plugin or the null pointer.
unfoldable pub load_plugin : Loader → List Bytes → Bytes → List Bytes × Option Bytes
unfolding is_library_file
load_plugin ld handles path =
    if is_library_file path
    then (if ld.dlopen path
        then (let opened = path ∷ handles in
            if ld.dlsym path (codes "create_plugin")
            then (if ld.dlsym path (codes "delete_plugin")
                then (opened, if ld.create path then some path else none)
                else (dlclose opened, none))
            else (dlclose opened, none))
        else (handles, none))
    else (handles, none)

abbrev pub keep : Manager → List Bytes × Option Bytes → Manager
keep m (handles, none) = record m { handles = handles }
keep m (handles, some plugin) = record {
  handles = handles;
  loaded_plugins = m.loaded_plugins ++ plugin ∷ [];
}

-- `LoadPlugins`, from the names of the files in the folder.
unfoldable pub load_plugins : Loader → Manager → Bytes → List Bytes → Manager
unfolding load_plugin
load_plugins ld m plugins_path [] = m
load_plugins ld m plugins_path (plugin_file ∷ files) =
    load_plugins ld (keep m (load_plugin ld m.handles (plugins_path ++ b'/' ∷ plugin_file)))
      plugins_path files

-- `ForEachPlugin`, over `loaded_plugins`, with a functor that changes a state.
unfoldable pub for_each_plugin {ℓ} : {S : Type ℓ} → (S → Bytes → S) → S → List Bytes → S
for_each_plugin functor s [] = s
for_each_plugin functor s (p ∷ ps) = for_each_plugin functor (functor s p) ps

so_lacks_dot : lacks b'.' (codes "so") ≡ true
unfolding lacks
so_lacks_dot = refl

is_library_file-append : (stem : Bytes) → is_library_file (stem ++ b'.' ∷ codes "so") ≡ true
unfolding is_library_file
is_library_file-append stem =
    rw (after_last-append b'.' stem (codes "so") so_lacks_dot, is_library_file)
      (bytes_eq_refl (codes "so"))

-- A file counts as a library exactly if its name ends in ".so".
is_library_file_iff :
    (path : Bytes) → (is_library_file path ≡ true) ↔ ((stem : Bytes) × (path ≡ stem ++ codes ".so"))
unfolding is_library_file
is_library_file_iff path = (
  λ h. elim (Option-cases (after_last b'.' path)) [
    | inl e ↦ absurd (ground arith)
    | inr (r, e) ↦
        let (stem, p) = after_last-splits b'.' path e in
        (stem, p ∙ ap (λ t. stem ++ b'.' ∷ t) ((bytes_eq_iff r (codes "so")).0 (ground arith)))
  ],
  λ (stem, p). ap is_library_file p ∙ is_library_file-append stem,
)

-- A file that is a library, can be opened, and exports both functions of a plugin.
abbrev pub stays_open : Loader → Bytes → Bool
stays_open ld path =
    is_library_file path
    && ld.dlopen path
    && ld.dlsym path (codes "create_plugin")
    && ld.dlsym path (codes "delete_plugin")

-- And its function makes a plugin.
abbrev pub is_plugin : Loader → Bytes → Bool
is_plugin ld path = stays_open ld path && ld.create path

-- The files that pass a test among some files of a folder, in their order.
unfoldable pub files_among : (Bytes → Bool) → Bytes → List Bytes → List Bytes
files_among test dir [] = []
files_among test dir (f ∷ fs) =
    if test (dir ++ b'/' ∷ f)
    then (dir ++ b'/' ∷ f) ∷ files_among test dir fs
    else files_among test dir fs

-- The paths of the plugins among some files of a folder, in the order of the files.
abbrev pub plugins_among : Loader → Bytes → List Bytes → List Bytes
plugins_among ld = files_among (is_plugin ld)

load_plugin_lem :
    (ld : Loader) (handles : List Bytes) (path : Bytes)
    → load_plugin ld handles path ≡ (
      if stays_open ld path then path ∷ handles else handles,
      if is_plugin ld path then some path else none,
    )
unfolding load_plugin
load_plugin_lem ld handles path = ground arith

with_plugin :
    (m : Manager) (handles : List Bytes) (is : Bool) (path : Bytes)
    → keep m (handles, if is then some path else none) ≡ record {
      handles = handles;
      loaded_plugins = if is then m.loaded_plugins ++ path ∷ [] else m.loaded_plugins;
    }
with_plugin m handles true path = refl
with_plugin m handles false path = refl

keep_lem :
    (ld : Loader) (m : Manager) (path : Bytes)
    → keep m (load_plugin ld m.handles path) ≡ record {
      handles = if stays_open ld path then path ∷ m.handles else m.handles;
      loaded_plugins =
          if is_plugin ld path then m.loaded_plugins ++ path ∷ [] else m.loaded_plugins;
    }
keep_lem ld m path =
    ap (keep m) (load_plugin_lem ld m.handles path)
    ∙ with_plugin m (if stays_open ld path then path ∷ m.handles else m.handles) (is_plugin ld path)
        path

added_last :
    (xs : List Bytes) (is : Bool) (p : Bytes) (rest : List Bytes)
    → (if is then xs ++ p ∷ [] else xs) ++ rest ≡ xs ++ (if is then p ∷ rest else rest)
added_last xs true p rest = append_assoc xs (p ∷ []) rest
added_last xs false p rest = refl

added_first :
    (xs : List Bytes) (is : Bool) (p : Bytes) (rest : List Bytes)
    → reverse rest ++ (if is then p ∷ xs else xs) ≡ reverse (if is then p ∷ rest else rest) ++ xs
added_first xs true p rest =
    sym (ap (λ t. t ++ xs) (reverse-cons p rest) ∙ append_assoc (reverse rest) (p ∷ []) xs)
added_first xs false p rest = refl

-- LoadPlugins loads exactly the files that are libraries, can be opened, export both functions and
-- make a plugin, in the order of the folder, and holds one open handle for each file with both
-- functions and no other: a file without one of them is closed again.
pub load_plugins_lem :
    (ld : Loader) (m : Manager) (dir : Bytes) (files : List Bytes)
    → ((load_plugins ld m dir files).loaded_plugins
        ≡ m.loaded_plugins ++ plugins_among ld dir files)
      × ((load_plugins ld m dir files).handles
          ≡ reverse (files_among (stays_open ld) dir files) ++ m.handles)
unfolding load_plugins files_among
load_plugins_lem ld m dir [] = (sym (append-nil _), refl)
load_plugins_lem ld m dir (f ∷ fs) =
    let p : Bytes = dir ++ b'/' ∷ f in
    let m1 : Manager = record {
      handles = if stays_open ld p then p ∷ m.handles else m.handles;
      loaded_plugins = if is_plugin ld p then m.loaded_plugins ++ p ∷ [] else m.loaded_plugins;
    } in
    let step : load_plugins ld m dir (f ∷ fs) ≡ load_plugins ld m1 dir fs =
      ap (λ n. load_plugins ld n dir fs) (keep_lem ld m p) in
    let (loaded, open_ones) = load_plugins_lem ld m1 dir fs in
    (
      ap (λ (n : Manager). n.loaded_plugins) step
          ∙ loaded
          ∙ added_last m.loaded_plugins (is_plugin ld p) p (files_among (is_plugin ld) dir fs),
      ap (λ (n : Manager). n.handles) step
          ∙ open_ones
          ∙ added_first m.handles (stays_open ld p) p (files_among (stays_open ld) dir fs),
    )
