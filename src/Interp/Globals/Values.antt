-- ===== src/Interp/Globals/Values.antt =====
-- What the constructor of `LuaInterpreter` leaves in the globals.
use sdl_atf.Common.{
  ℕ, ◌≡◌, refl, ◌∙◌, Bool, true, false, some, List, Bytes, bytes_eq, codes, arith, ◌==◌,
}
use sdl_atf.Lua.{Value, text, reference}
use sdl_atf.Lua.Heap.{Key, name, LuaHeap, IsLuaHeap}
use sdl_atf.Interp.{extended_cpath, extended_path}
use sdl_atf.Interp.Globals.Texts.{extend_lem, raw_get-raw_set}
use sdl_atf.Interp.Globals.{library_names, Functions, require_all, set_globals, new_interpreter}
use sdl_atf.Interp.Globals.Setting.{HasGlobals, set_globals-HasGlobals, set_globals-other}

-- The heap behind the loading of the libraries.
abbrev pub loaded : {H : Type 0} → LuaHeap H → (H → Bytes → H × Value) → ℕ → H → H
loaded hp open_library globals h = require_all hp open_library globals h library_names

module _ {H : Type 0} (hp : LuaHeap H) (laws : IsLuaHeap hp) where
  module _ (globals : ℕ) (f : Functions) (this : ℕ) (is_redirected : Bool) (args : List Bytes)
      (open_library : H → Bytes → H × Value) (h : H) where
    abbrev with_libraries : H
    with_libraries = loaded hp open_library globals h

    -- The constructor of LuaInterpreter, where the libraries have left a table of the package library
    -- with two paths in it: both paths are put behind those of the framework; and the globals of the
    -- libraries are kept, but for `quit`, `timestamp` and `arguments`, which are the framework's
    -- functions, `is_redirected`, `interp`, a userdata with the interpreter, and `argv`, the array of the given arguments from 1 on
    -- without an entry behind them.
    pub new_interpreter-HasGlobals :
        (p : ℕ) (cpath path : Bytes)
        → hp.raw_get (loaded hp open_library globals h) globals (name (codes "package"))
          ≡ reference p
        → hp.raw_get (loaded hp open_library globals h) p (name (codes "cpath")) ≡ text cpath
        → hp.raw_get (loaded hp open_library globals h) p (name (codes "path")) ≡ text path
        → (p == globals) ≡ false
        → (laws.view (loaded hp open_library globals h)).used p ≡ true
        → (laws.view (loaded hp open_library globals h)).used globals ≡ true
        → (h' : H) × (new_interpreter hp globals f this is_redirected args open_library h ≡ some h')
          × (hp.raw_get h' p (name (codes "cpath")) ≡ text (extended_cpath cpath))
          × (hp.raw_get h' p (name (codes "path")) ≡ text (extended_path path))
          × HasGlobals hp globals f this is_redirected args
              (λ k. hp.raw_get (loaded hp open_library globals h) globals (name k))
              h'
    unfolding new_interpreter bytes_eq
    new_interpreter-HasGlobals p cpath path at_package at_cpath at_path apart used_p used =
        let k1 : Key = name (codes "cpath") in
        let k2 : Key = name (codes "path") in
        let v1 : Value = text (extended_cpath cpath) in
        let v2 : Value = text (extended_path path) in
        let a : H = hp.raw_set with_libraries p k1 v1 in
        let b : H = hp.raw_set a p k2 v2 in
        let path_kept : hp.raw_get a p k2 ≡ text path =
          raw_get-raw_set hp laws with_libraries p p k1 k2 v1 ∙ ground (arith, at_path) in
        let used_b : (laws.view b).used globals ≡ true =
          rw (laws.raw_set_view a p k2 v2) (rw (laws.raw_set_view with_libraries p k1 v1) used) in
        let used_p_b : (laws.view b).used p ≡ true =
          rw (laws.raw_set_view a p k2 v2) (rw (laws.raw_set_view with_libraries p k1 v1) used_p) in
        let kept = set_globals-other hp laws globals f this is_redirected args b used_b p in
        (
          set_globals hp globals f this is_redirected args b,
          rw at_package (
              rw (extend_lem hp laws with_libraries p (codes "cpath") cpath extended_cpath at_cpath)
                (rw (extend_lem hp laws a p (codes "path") path extended_path path_kept) refl)),
          kept k1 used_p_b apart
              ∙ raw_get-raw_set hp laws a p p k2 k1 v2
              ∙ ground (arith, raw_get-raw_set hp laws with_libraries p p k1 k1 v1),
          kept k2 used_p_b apart ∙ raw_get-raw_set hp laws a p p k2 k2 v2 ∙ ground arith,
          set_globals-HasGlobals hp laws globals f this is_redirected args b used_b
              (λ k. hp.raw_get with_libraries globals (name k))
              (λ k.
                raw_get-raw_set hp laws a p globals k2 (name k) v2
                ∙ ground (
                  arith,
                  apart,
                  raw_get-raw_set hp laws with_libraries p globals k1 (name k) v1,
                )),
        )
