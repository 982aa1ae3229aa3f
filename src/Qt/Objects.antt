-- ===== src/Qt/Objects.antt =====
-- qtlua.cc: how a dynamic object is made for a script, and the table in which it has its fields.
pub mod Fields
pub mod Apart
use sdl_atf.Common.{
  ℕ, ◌≡◌, Bool, true, false, Option, none, some, Bytes, codes, ◌==◌, if◌then◌else◌,
}
use sdl_atf.Lua.{Value, nil, reference, is_nil}
use sdl_atf.Lua.Heap.{Key, name, LuaHeap}

module _ {H : Type 0} (hp : LuaHeap H) where
  -- `luaopen_qt` makes the table whose place in the registry is `dynamicTableId`, with which dynamic
  -- objects are marked.
  unfoldable pub luaopen_qt : H → H × ℕ
  luaopen_qt h = hp.new_table h

  -- `qtlua_createdynamic`, where the new `DynamicObject`, a child of the interpreter, is at `object`
  -- and `delete_dynamic` is the function `qtlua_deletedynamic`: the heap and the userdata.
  unfoldable pub qtlua_createdynamic : ℕ → ℕ → H → ℕ → H × ℕ
  qtlua_createdynamic dynamic_table delete_dynamic h object =
      let (h1, userdatum) = hp.new_userdata h object in
      let (h2, meta) = hp.new_table h1 in
      let (h3, fields) = hp.new_table h2 in
      let h4 = hp.raw_set h3 meta (name (codes "__index")) (reference fields) in
      let h5 = hp.raw_set h4 meta (name (codes "__newindex")) (reference fields) in
      let h6 = hp.raw_set h5 meta (name (codes "__gc")) (reference delete_dynamic) in
      let h7 = hp.set_metatable h6 userdatum meta in
      (hp.set_uservalue h7 userdatum (reference dynamic_table), userdatum)

  abbrev is_reference : ℕ → Value → Bool
  is_reference n (reference m) = n == m
  is_reference n _ = false

  -- The mark by which `qtlua_connect` knows a dynamic object.
  unfoldable pub is_dynamic : ℕ → H → ℕ → Bool
  is_dynamic dynamic_table h o = is_reference dynamic_table (hp.get_uservalue h o)

  abbrev index_or_new : H → ℕ → Value → H × Value
  index_or_new h meta v =
      let (h1, fields) = hp.new_table h in
      if is_nil v
      then (hp.raw_set h1 meta (name (codes "__index")) (reference fields), reference fields)
      else (h, v)

  -- `get_index_table`, which gives the table too; `none` for an object without a metatable, for which
  -- lua_getmetatable pushes nothing, so that the code goes on with another value of the stack.
  unfoldable pub get_index_table : H → ℕ → Option (H × Value)
  get_index_table h o = elim (hp.get_metatable h o) [
    | none ↦ none
    | some meta ↦ some (index_or_new h meta (hp.raw_get h meta (name (codes "__index"))))
  ]
