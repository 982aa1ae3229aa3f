-- ===== src/Tests/Heaps.antt =====
-- A heap of Lua, and the objects in it.
use sdl_atf.Common.{
  ℕ, suc, ◌≡◌, refl, ap, Bool, true, false, Option, none, some, Bytes, codes, arith, ltb, bytes_eq,
  ◌==◌, List, [], ◌∷◌, if◌then◌else◌,
}
use mathlib.Core.Path.{fun_ext}
use sdl_atf.Lua.{Value, nil, boolean, text, reference}
use sdl_atf.Lua.Heap.{
  Key, name, key_eq, View, set_entry, add_object, set_meta, set_user, LuaHeap, IsLuaHeap,
  HasFieldsIn,
}
use sdl_atf.Interp.{extended_cpath, extended_path}
use sdl_atf.Interp.Globals.{Functions, require_all, new_interpreter}
use sdl_atf.Interp.Globals.Setting.{HasGlobals}
use sdl_atf.Interp.Globals.Values.{loaded, new_interpreter-HasGlobals}
use sdl_atf.Qt.Objects.{qtlua_createdynamic}
use sdl_atf.Qt.Objects.Apart.{LivesIn, qtlua_createdynamic-apart}
use sdl_atf.Qt.Objects.Fields.{IsNew, qtlua_createdynamic_lem}

-- References are counted up.
pub record Store : Type 0 where
  pub entry : ℕ → Key → Value
  pub metatable : ℕ → Option ℕ
  pub uservalue : ℕ → Value
  pub address : ℕ → ℕ
  pub next : ℕ

abbrev pub view_of : Store → View
view_of s = record {
  entry = s.entry;
  metatable = s.metatable;
  uservalue = s.uservalue;
  address = s.address;
  used = λ n. ltb n s.next;
}

abbrev store_of : View → ℕ → Store
store_of s next = record {
  entry = s.entry;
  metatable = s.metatable;
  uservalue = s.uservalue;
  address = s.address;
  next = next;
}

abbrev added : Store → ℕ → Store × ℕ
added s address = (store_of (add_object (view_of s) s.next address) (suc s.next), s.next)

abbrev field_from : Store → Value → Bytes → Value
field_from s (reference t) k = s.entry t (name k)
field_from s _ k = nil

abbrev field_to : Store → Value → Bytes → Value → Store
field_to s (reference t) k v = store_of (set_entry (view_of s) t (name k) v) s.next
field_to s _ k v = s

abbrev get_field : Store → ℕ → Bytes → Value
get_field s o k = elim (s.metatable o) [
  | none ↦ s.entry o (name k)
  | some m ↦ field_from s (s.entry m (name (codes "__index"))) k
]

abbrev set_field : Store → ℕ → Bytes → Value → Store
set_field s o k v = elim (s.metatable o) [
  | none ↦ store_of (set_entry (view_of s) o (name k) v) s.next
  | some m ↦ field_to s (s.entry m (name (codes "__newindex"))) k v
]

abbrev pub plain_heap : LuaHeap Store
plain_heap = record {
  new_table = λ s. added s 0;
  raw_get = λ s t k. s.entry t k;
  raw_set = λ s t k v. store_of (set_entry (view_of s) t k v) s.next;
  new_userdata = added;
  to_userdata = λ s o. s.address o;
  get_metatable = λ s o. s.metatable o;
  set_metatable = λ s o m. store_of (set_meta (view_of s) o m) s.next;
  get_uservalue = λ s o. s.uservalue o;
  set_uservalue = λ s o v. store_of (set_user (view_of s) o v) s.next;
  get_field = get_field;
  set_field = set_field;
}

next_used : (n next : ℕ) → ltb n (suc next) ≡ (if n == next then true else ltb n next)
next_used n next = ground arith

fresh : (n : ℕ) → ltb n n ≡ false
fresh n = ground arith

added_view : (s : Store) (a : ℕ) → view_of (added s a).0 ≡ add_object (view_of s) (added s a).1 a
added_view s a =
    ap (λ (u : ℕ → Bool). record (add_object (view_of s) s.next a) { used = u })
      (fun_ext (λ n. next_used n s.next))

get_field_lem :
    (s : Store) (o m t : ℕ) (k : Bytes)
    → HasFieldsIn (view_of s) o m t
    → get_field s o k ≡ s.entry t (name k)
get_field_lem s o m t k f = rw (f.has_meta, get_field) (rw (f.reads, field_from) refl)

set_field_lem :
    (s : Store) (o m t : ℕ) (k : Bytes) (v : Value)
    → HasFieldsIn (view_of s) o m t
    → view_of (set_field s o k v) ≡ set_entry (view_of s) t (name k) v
set_field_lem s o m t k v f = rw (f.has_meta, set_field) (rw (f.writes, field_to) refl)

pub plain_heap_laws : IsLuaHeap plain_heap
plain_heap_laws = record {
  view = view_of;
  table_fresh = λ s. fresh s.next;
  table_view = λ s. added_view s 0;
  userdata_fresh = λ s a. fresh s.next;
  userdata_view = added_view;
  to_userdata_view = λ s o. refl;
  raw_get_view = λ s t k. refl;
  raw_set_view = λ s t k v. refl;
  get_metatable_view = λ s o. refl;
  set_metatable_view = λ s o m. refl;
  get_uservalue_view = λ s o. refl;
  set_uservalue_view = λ s o v. refl;
  get_field_view = get_field_lem;
  set_field_view = set_field_lem;
}

-- The table 1 marks dynamic objects, and 2 is the function that deletes them.
abbrev pub first_heap : Store
first_heap = record {
  entry = λ t k. nil;
  metatable = λ o. none;
  uservalue = λ o. nil;
  address = λ o. 0;
  next = 3;
}

qtlua_createdynamic_lem_example :
    IsNew plain_heap 1 8
      (qtlua_createdynamic plain_heap 1 2 first_heap 8).0
      (qtlua_createdynamic plain_heap 1 2 first_heap 8).1
qtlua_createdynamic_lem_example =
    qtlua_createdynamic_lem plain_heap plain_heap_laws 1 2 first_heap 8

-- A first dynamic object, and a second one.
abbrev second_heap : Store
second_heap = (qtlua_createdynamic plain_heap 1 2 first_heap 8).0

first_lives : LivesIn (plain_heap_laws.view second_heap) 3 4 5
unfolding qtlua_createdynamic plain_heap_laws bytes_eq
first_lives = record {
  has_fields = record { has_meta = refl; reads = refl; writes = refl; plain = refl };
  object_used = refl;
  meta_used = refl;
  table_used = refl;
}

qtlua_createdynamic-apart_example :
    let made : Store = (qtlua_createdynamic plain_heap 1 2 second_heap 9).0 in
    let second : ℕ = (qtlua_createdynamic plain_heap 1 2 second_heap 9).1 in
    (plain_heap.get_field made 3 (codes "x") ≡ plain_heap.get_field second_heap 3 (codes "x"))
    × (plain_heap.get_field
          (plain_heap.set_field made second (codes "x") (boolean true))
          3
          (codes "x")
        ≡ plain_heap.get_field second_heap 3 (codes "x"))
    × (plain_heap.get_field
          (plain_heap.set_field made 3 (codes "x") (boolean true))
          second
          (codes "x")
        ≡ nil)
qtlua_createdynamic-apart_example =
    qtlua_createdynamic-apart plain_heap plain_heap_laws 1 2 second_heap 9 3 4 5 first_lives
      (codes "x") (codes "x") (boolean true)

-- The table 1 holds the globals, and 2 is that of the package library, with its two paths.
abbrev lua_state : Store
lua_state = record first_heap {
  entry = λ t k.
      if t == 2
      then (if key_eq k (name (codes "cpath")) then text (codes "?.so") else text (codes "?.lua"))
      else nil;
}

abbrev open_module : Store → Bytes → Store × Value
open_module s library = (s, if bytes_eq library (codes "package") then reference 2 else nil)

abbrev three_functions : Functions
three_functions = record { quit = 10; timestamp = 11; arguments = 12 }

abbrev script_arguments : List Bytes
script_arguments = codes "test.lua" ∷ codes "-v" ∷ []

new_interpreter-HasGlobals_example :
    (h : Store) × (new_interpreter plain_heap 1 three_functions 8 true script_arguments open_module
        lua_state
      ≡ some h)
    × (plain_heap.raw_get h 2 (name (codes "cpath")) ≡ text (extended_cpath (codes "?.so")))
    × (plain_heap.raw_get h 2 (name (codes "path")) ≡ text (extended_path (codes "?.lua")))
    × HasGlobals plain_heap 1 three_functions 8 true script_arguments
        (λ k. plain_heap.raw_get (loaded plain_heap open_module 1 lua_state) 1 (name k))
        h
unfolding bytes_eq require_all plain_heap_laws
new_interpreter-HasGlobals_example =
    new_interpreter-HasGlobals plain_heap plain_heap_laws 1 three_functions 8 true script_arguments
      open_module lua_state 2 (codes "?.so") (codes "?.lua") refl refl refl refl refl refl
