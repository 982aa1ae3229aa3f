-- ===== src/Qt/Objects/Fields.antt =====
-- What a script assigns to a dynamic object, and what the bindings find in it.
use sdl_atf.Common.{
  ℕ, ◌≡◌, refl, ap, ◌∙◌, true, false, some, Bytes, bytes_eq, codes, arith, ◌==◌, if◌then◌else◌,
}
use sdl_atf.Lua.{Value, nil, reference}
use sdl_atf.Lua.Heap.{
  Key, name, View, set_entry, add_object, set_meta, set_user, fresh_apart, LuaHeap, IsLuaHeap,
  HasFieldsIn,
}
use sdl_atf.Qt.Objects.{qtlua_createdynamic, is_dynamic, get_index_table}

-- That a userdata holds the address of an object, counts as dynamic, and has one table for its fields, none of which is there: the table
-- that `get_index_table` gives, in which `o.k = v` puts a field and from which `o.k` reads it.
pub record IsNew {H : Type 0} (hp : LuaHeap H) (dynamic_table object : ℕ) (h : H) (o : ℕ)
    : Type 0 where
  pub table : ℕ
  pub held : hp.to_userdata h o ≡ object
  pub marked : is_dynamic hp dynamic_table h o ≡ true
  pub indexed : get_index_table hp h o ≡ some (h, reference table)
  pub assigned :
      (k j : Bytes) (v : Value)
      → hp.get_field (hp.set_field h o k v) o j ≡ (if bytes_eq k j then v else nil)
  pub stored :
      (k j : Bytes) (v : Value)
      → hp.get_field (hp.raw_set h table (name k) v) o j ≡ (if bytes_eq k j then v else nil)

-- An entry of any table but the metatable leaves the fields in their table.
pub HasFieldsIn-set_entry :
    (s : View) (o m t n : ℕ) (k : Key) (v : Value)
    → HasFieldsIn s o m t
    → (n == m) ≡ false
    → HasFieldsIn (set_entry s n k v) o m t
HasFieldsIn-set_entry s o m t n k v f apart = record {
  has_meta = f.has_meta;
  reads = ground (arith, apart, f.reads);
  writes = ground (arith, apart, f.writes);
  plain = f.plain;
}

module _ {H : Type 0} (hp : LuaHeap H) (laws : IsLuaHeap hp) (dynamic_table delete_dynamic : ℕ)
    (h : H) (object : ℕ) where
  -- The userdata, its metatable and the table of its fields.
  abbrev pub userdatum : ℕ
  userdatum = (hp.new_userdata h object).1

  abbrev pub meta : ℕ
  meta = (hp.new_table (hp.new_userdata h object).0).1

  abbrev pub fields : ℕ
  fields = (hp.new_table (hp.new_table (hp.new_userdata h object).0).0).1

  abbrev pub made : H
  made = (qtlua_createdynamic hp dynamic_table delete_dynamic h object).0

  -- The view of the heap behind the three new objects.
  abbrev pub with_objects : View
  with_objects = add_object (add_object (add_object (laws.view h) userdatum object) meta 0) fields 0

  abbrev pub with_entries : View
  with_entries =
      set_entry
        (set_entry (set_entry with_objects meta (name (codes "__index")) (reference fields)) meta
          (name (codes "__newindex")) (reference fields))
        meta (name (codes "__gc")) (reference delete_dynamic)

  abbrev pub made_view : View
  made_view = set_user (set_meta with_entries userdatum meta) userdatum (reference dynamic_table)

  pub view-made : laws.view made ≡ made_view
  unfolding qtlua_createdynamic
  view-made =
      laws.set_uservalue_view _ _ _
      ∙ ap (λ s. set_user s userdatum (reference dynamic_table))
          (laws.set_metatable_view _ _ _
            ∙ ap (λ s. set_meta s userdatum meta)
                (laws.raw_set_view _ _ _ _
                  ∙ ap (λ s. set_entry s meta (name (codes "__gc")) (reference delete_dynamic))
                      (laws.raw_set_view _ _ _ _
                        ∙ ap (λ s. set_entry s meta (name (codes "__newindex")) (reference fields))
                            (laws.raw_set_view _ _ _ _
                              ∙ ap
                                  (λ s.
                                    set_entry s meta (name (codes "__index")) (reference fields))
                                  (laws.table_view _
                                    ∙ ap (λ s. add_object s fields 0)
                                        (laws.table_view _
                                          ∙ ap (λ s. add_object s meta 0)
                                              (laws.userdata_view h object)))))))

  meta-userdatum : (meta == userdatum) ≡ false
  meta-userdatum =
      fresh_apart (laws.view (hp.new_userdata h object).0) userdatum meta
        (rw (laws.userdata_view h object) (ground arith))
        (laws.table_fresh (hp.new_userdata h object).0)

  pub fields-meta : (fields == meta) ≡ false
  fields-meta =
      fresh_apart (laws.view (hp.new_table (hp.new_userdata h object).0).0) meta fields
        (rw (laws.table_view (hp.new_userdata h object).0) (ground arith))
        (laws.table_fresh (hp.new_table (hp.new_userdata h object).0).0)

  fields-userdatum : (fields == userdatum) ≡ false
  fields-userdatum =
      fresh_apart (laws.view (hp.new_table (hp.new_userdata h object).0).0) userdatum fields
        (rw (laws.table_view (hp.new_userdata h object).0)
          (rw (laws.userdata_view h object) (ground arith)))
        (laws.table_fresh (hp.new_table (hp.new_userdata h object).0).0)

  pub made-HasFieldsIn : HasFieldsIn (laws.view made) userdatum meta fields
  unfolding bytes_eq
  made-HasFieldsIn = rw view-made (record {
    has_meta = ground arith;
    reads = ground arith;
    writes = ground arith;
    plain = ground (arith, fields-meta, fields-userdatum);
  })

  -- No field is there.
  pub made_blank : (j : Bytes) → (laws.view made).entry fields (name j) ≡ nil
  made_blank j = rw view-made (ground (arith, fields-meta))

  entered-HasFieldsIn :
      (k : Bytes) (v : Value)
      → HasFieldsIn (set_entry (laws.view made) fields (name k) v) userdatum meta fields
  entered-HasFieldsIn k v =
      HasFieldsIn-set_entry (laws.view made) userdatum meta fields fields (name k) v
        made-HasFieldsIn fields-meta

  -- What is read behind a change of the heap that sets one field.
  get_field-changed :
      (h' : H) (k j : Bytes) (v : Value)
      → laws.view h' ≡ set_entry (laws.view made) fields (name k) v
      → hp.get_field h' userdatum j ≡ (if bytes_eq k j then v else nil)
  get_field-changed h' k j v e =
      laws.get_field_view h' userdatum meta fields j (rw e (entered-HasFieldsIn k v))
      ∙ rw e (ground (arith, made_blank j))

  get_index_table-made : get_index_table hp made userdatum ≡ some (made, reference fields)
  unfolding get_index_table
  get_index_table-made =
      rw (laws.get_metatable_view made userdatum ∙ made-HasFieldsIn.has_meta, get_index_table)
        (rw (laws.raw_get_view made meta (name (codes "__index")) ∙ made-HasFieldsIn.reads) refl)

  is_dynamic-made : is_dynamic hp dynamic_table made userdatum ≡ true
  unfolding is_dynamic
  is_dynamic-made =
      rw (laws.get_uservalue_view made userdatum ∙ ap (λ s. s.uservalue userdatum) view-made)
        (ground arith)

  to_userdata-made : hp.to_userdata made userdatum ≡ object
  to_userdata-made =
      laws.to_userdata_view made userdatum
      ∙ ap (λ s. s.address userdatum) view-made
      ∙ ground (arith, meta-userdatum, fields-userdatum)

  -- `qt.dynamic()` makes a userdata with the new object, one that qt.connect takes for a dynamic one, and that has all its fields
  -- in one new table: what a script assigns to `o.k`, as the function of a slot, and what qt.connect
  -- stores in the index table, as the emitter of a signal, is what `o.k` gives afterwards, and no other
  -- field is there.
  pub qtlua_createdynamic_lem :
      IsNew hp dynamic_table object
        (qtlua_createdynamic hp dynamic_table delete_dynamic h object).0
        (qtlua_createdynamic hp dynamic_table delete_dynamic h object).1
  unfolding qtlua_createdynamic
  qtlua_createdynamic_lem = record {
    table = fields;
    held = to_userdata-made;
    marked = is_dynamic-made;
    indexed = get_index_table-made;
    assigned = λ k j v.
        get_field-changed (hp.set_field made userdatum k v) k j v
          (laws.set_field_view made userdatum meta fields k v made-HasFieldsIn);
    stored = λ k j v.
        get_field-changed (hp.raw_set made fields (name k) v) k j v
          (laws.raw_set_view made fields (name k) v);
  }
