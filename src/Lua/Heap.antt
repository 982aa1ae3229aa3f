-- ===== src/Lua/Heap.antt =====
-- The tables and userdata of Lua, which the functions of its API make and change: the API is a
-- parameter, and what its manual says of it is said of a view of the objects.
use sdl_atf.Common.{
  ℕ, ◌≡◌, Bool, true, false, Option, none, some, Bytes, bytes_eq, codes, ap, arith, inl, inr,
  Bool-cases, ==_iff, ◌==◌, ◌&&◌, if◌then◌else◌,
}
use sdl_atf.Lua.{Value, nil, reference}

-- The keys that the bindings use.
pub data Key : Type 0 where
  name : Bytes → Key
  index : ℕ → Key

abbrev pub key_eq : Key → Key → Bool
key_eq (name a) (name b) = bytes_eq a b
key_eq (index i) (index j) = i == j
key_eq _ _ = false

-- The objects by their references: the entries of a table, nil where there is none; the metatable of
-- an object; the uservalue of a userdata, and the address in it; and which references are in use.
pub record View : Type 0 where
  pub entry : ℕ → Key → Value
  pub metatable : ℕ → Option ℕ
  pub uservalue : ℕ → Value
  pub address : ℕ → ℕ
  pub used : ℕ → Bool

abbrev pub set_entry : View → ℕ → Key → Value → View
set_entry s t k v = record s { entry = λ n j. if n == t && key_eq k j then v else s.entry n j }

-- A new object with no entries and no metatable.
abbrev pub add_object : View → ℕ → ℕ → View
add_object s o address = record {
  entry = λ n j. if n == o then nil else s.entry n j;
  metatable = λ n. if n == o then none else s.metatable n;
  uservalue = λ n. if n == o then nil else s.uservalue n;
  address = λ n. if n == o then address else s.address n;
  used = λ n. if n == o then true else s.used n;
}

abbrev pub set_meta : View → ℕ → ℕ → View
set_meta s o m = record s { metatable = λ n. if n == o then some m else s.metatable n }

abbrev pub set_user : View → ℕ → Value → View
set_user s o v = record s { uservalue = λ n. if n == o then v else s.uservalue n }

-- `lua_newtable`, `lua_rawget` and `lua_rawset` with their variants, `lua_newuserdata` with an address
-- written into it, `lua_touserdata` with the reading of that address, the metatable and the uservalue, and `lua_getfield` and `lua_setfield`, which heed
-- metatables as the script does with `o.k` and `o.k = v`.
pub record LuaHeap (H : Type 0) : Type 0 where
  pub new_table : H → H × ℕ
  pub raw_get : H → ℕ → Key → Value
  pub raw_set : H → ℕ → Key → Value → H
  pub new_userdata : H → ℕ → H × ℕ
  pub to_userdata : H → ℕ → ℕ
  pub get_metatable : H → ℕ → Option ℕ
  pub set_metatable : H → ℕ → ℕ → H
  pub get_uservalue : H → ℕ → Value
  pub set_uservalue : H → ℕ → Value → H
  pub get_field : H → ℕ → Bytes → Value
  pub set_field : H → ℕ → Bytes → Value → H

-- A userdata has its fields in a table if that is the `__index` and the `__newindex` of its
-- metatable `meta`, and has no metatable of its own.
pub record HasFieldsIn (s : View) (o meta table : ℕ) : Type 0 where
  pub has_meta : s.metatable o ≡ some meta
  pub reads : s.entry meta (name (codes "__index")) ≡ reference table
  pub writes : s.entry meta (name (codes "__newindex")) ≡ reference table
  pub plain : s.metatable table ≡ none

-- What the manual says of the functions.
pub record IsLuaHeap {H : Type 0} (hp : LuaHeap H) : Type 0 where
  pub view : H → View
  pub table_fresh : (h : H) → (view h).used (hp.new_table h).1 ≡ false
  pub table_view : (h : H) → view (hp.new_table h).0 ≡ add_object (view h) (hp.new_table h).1 0
  pub userdata_fresh : (h : H) (a : ℕ) → (view h).used (hp.new_userdata h a).1 ≡ false
  pub userdata_view :
      (h : H) (a : ℕ) → view (hp.new_userdata h a).0 ≡ add_object (view h) (hp.new_userdata h a).1 a
  pub to_userdata_view : (h : H) (o : ℕ) → hp.to_userdata h o ≡ (view h).address o
  pub raw_get_view : (h : H) (t : ℕ) (k : Key) → hp.raw_get h t k ≡ (view h).entry t k
  pub raw_set_view :
      (h : H) (t : ℕ) (k : Key) (v : Value) → view (hp.raw_set h t k v) ≡ set_entry (view h) t k v
  pub get_metatable_view : (h : H) (o : ℕ) → hp.get_metatable h o ≡ (view h).metatable o
  pub set_metatable_view : (h : H) (o m : ℕ) → view (hp.set_metatable h o m) ≡ set_meta (view h) o m
  pub get_uservalue_view : (h : H) (o : ℕ) → hp.get_uservalue h o ≡ (view h).uservalue o
  pub set_uservalue_view :
      (h : H) (o : ℕ) (v : Value) → view (hp.set_uservalue h o v) ≡ set_user (view h) o v
  pub get_field_view :
      (h : H) (o m t : ℕ) (k : Bytes)
      → HasFieldsIn (view h) o m t
      → hp.get_field h o k ≡ (view h).entry t (name k)
  pub set_field_view :
      (h : H) (o m t : ℕ) (k : Bytes) (v : Value)
      → HasFieldsIn (view h) o m t
      → view (hp.set_field h o k v) ≡ set_entry (view h) t (name k) v

-- A reference that is in use is another than one that is not.
pub fresh_apart : (s : View) (a b : ℕ) → s.used a ≡ true → s.used b ≡ false → (b == a) ≡ false
fresh_apart s a b old new = elim (Bool-cases (b == a)) [
  | inl e ↦ let same : b ≡ a = (==_iff b a).0 e in absurd (ground (arith, ap s.used same))
  | inr e ↦ e
]
