-- ===== src/Interp/Globals.antt =====
-- The constructor of `LuaInterpreter`: the libraries, the paths of the modules, and the globals.
pub mod Texts
pub mod Setting
pub mod Values
use sdl_atf.Common.{
  ℕ, zero, suc, ◌+◌, ◌≡◌, refl, ap, sym, ◌∙◌, Bool, true, false, Option, none, some, List, [], ◌∷◌,
  Bytes, bytes_eq, codes, arith, ◌==◌, ◌&&◌, if◌then◌else◌,
}
use sdl_atf.Lua.{Value, nil, boolean, text, reference}
use sdl_atf.Lua.Heap.{
  Key, name, index, key_eq, View, set_entry, add_object, LuaHeap, IsLuaHeap, fresh_apart,
}
use sdl_atf.Interp.{extended_cpath, extended_path}

-- The libraries in the order in which `luaL_requiref` loads them.
abbrev pub library_names : List Bytes
library_names =
    codes "base"
    ∷ codes "package"
    ∷ codes "network"
    ∷ codes "timers"
    ∷ codes "string"
    ∷ codes "table"
    ∷ codes "debug"
    ∷ codes "math"
    ∷ codes "io"
    ∷ codes "os"
    ∷ codes "bit32"
    ∷ codes "qt"
    ∷ codes "qdatetime"
    ∷ []

-- The C functions of the globals, by their references.
pub record Functions : Type 0 where
  pub quit : ℕ
  pub timestamp : ℕ
  pub arguments : ℕ

infixl 5 ◌>>=◌
abbrev ◌>>=◌ : {A B : Type 0} → Option A → (A → Option B) → Option B
none >>= f = none
some a >>= f = f a

module _ {H : Type 0} (hp : LuaHeap H) where
  -- `luaL_requiref` with a global: what opening a library leaves, and its module, is a parameter.
  unfoldable pub require_all : (H → Bytes → H × Value) → ℕ → H → List Bytes → H
  require_all open_library globals h [] = h
  require_all open_library globals h (n ∷ names) =
      let (h1, module_table) = open_library h n in
      require_all open_library globals (hp.raw_set h1 globals (name n) module_table) names

  abbrev with_text : H → ℕ → Bytes → (Bytes → Bytes) → Value → Option H
  with_text h package_table field extended (text s) =
      some (hp.raw_set h package_table (name field) (text (extended s)))
  with_text h package_table field extended _ = none

  -- A path of the package library is put behind new ones; `none` where its assertion fails, or it is
  -- no text.
  unfoldable pub extend : H → ℕ → Bytes → (Bytes → Bytes) → Option H
  extend h package_table field extended =
      with_text h package_table field extended (hp.raw_get h package_table (name field))

  abbrev table_of : Value → Option ℕ
  table_of (reference t) = some t
  table_of _ = none

  -- The array of texts in a table from an index on.
  unfoldable pub set_texts : H → ℕ → ℕ → List Bytes → H
  set_texts h table i [] = h
  set_texts h table i (a ∷ rest) =
      set_texts (hp.raw_set h table (index i) (text a)) table (suc i) rest

  module _ (globals : ℕ) (f : Functions) (this : ℕ) (is_redirected : Bool) (args : List Bytes) where
    -- Behind the paths: the functions, the interpreter as a userdata, and the arguments.
    unfoldable pub set_globals : H → H
    unfolding set_texts
    set_globals h =
        let h1 = hp.raw_set h globals (name (codes "quit")) (reference f.quit) in
        let h2 = hp.raw_set h1 globals (name (codes "timestamp")) (reference f.timestamp) in
        let h3 = hp.raw_set h2 globals (name (codes "arguments")) (reference f.arguments) in
        let h4 = hp.raw_set h3 globals (name (codes "is_redirected")) (boolean is_redirected) in
        let (h5, userdatum) = hp.new_userdata h4 this in
        let h6 = hp.raw_set h5 globals (name (codes "interp")) (reference userdatum) in
        let (h7, argv) = hp.new_table h6 in
        hp.raw_set (set_texts h7 argv 1 args) globals (name (codes "argv")) (reference argv)

    -- `LuaInterpreter::LuaInterpreter`, from the state that `luaL_newstate` makes.
    unfoldable pub new_interpreter : (H → Bytes → H × Value) → H → Option H
    unfolding require_all extend set_globals
    new_interpreter open_library h = do
      let h1 = require_all open_library globals h library_names
      package_table ← table_of (hp.raw_get h1 globals (name (codes "package")))
      h2 ← extend h1 package_table (codes "cpath") extended_cpath
      h3 ← extend h2 package_table (codes "path") extended_path
      some (set_globals h3)
