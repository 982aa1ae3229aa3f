-- ===== src/Qt/Objects/Apart.antt =====
-- Two dynamic objects: their fields are apart.
use sdl_atf.Common.{ℕ, ◌≡◌, sym, ◌∙◌, true, false, Bytes, codes, arith, ◌==◌}
use sdl_atf.Lua.{Value, nil, reference}
use sdl_atf.Lua.Heap.{
  Key, name, View, set_entry, add_object, set_meta, set_user, fresh_apart, LuaHeap, IsLuaHeap,
  HasFieldsIn,
}
use sdl_atf.Qt.Objects.{qtlua_createdynamic}
use sdl_atf.Qt.Objects.Fields.{
  HasFieldsIn-set_entry, userdatum, meta, fields, made, made_view, view-made, made-HasFieldsIn,
  made_blank, fields-meta,
}

-- An object of the heap with its fields in a table of its own: all three are in use.
pub record LivesIn (s : View) (o m t : ℕ) : Type 0 where
  pub has_fields : HasFieldsIn s o m t
  pub object_used : s.used o ≡ true
  pub meta_used : s.used m ≡ true
  pub table_used : s.used t ≡ true

-- A reference that is not in use is none of the three.
pub record IsApart (n o m t : ℕ) : Type 0 where
  pub from_object : (n == o) ≡ false
  pub from_meta : (n == m) ≡ false
  pub from_table : (n == t) ≡ false

fresh-IsApart : (s : View) (o m t n : ℕ) → LivesIn s o m t → s.used n ≡ false → IsApart n o m t
fresh-IsApart s o m t n l new = record {
  from_object = fresh_apart s o n l.object_used new;
  from_meta = fresh_apart s m n l.meta_used new;
  from_table = fresh_apart s t n l.table_used new;
}

eq_swap : (a b : ℕ) → (a == b) ≡ false → (b == a) ≡ false
eq_swap a b e = ground arith

-- Nothing that is done to other objects changes where the fields are.
LivesIn-add_object :
    (s : View) (o m t n a : ℕ)
    → LivesIn s o m t
    → IsApart n o m t
    → LivesIn (add_object s n a) o m t
LivesIn-add_object s o m t n a l p =
    let at_o = eq_swap n o p.from_object in
    let at_m = eq_swap n m p.from_meta in
    let at_t = eq_swap n t p.from_table in
    record {
      has_fields = record {
        has_meta = ground (arith, at_o, l.has_fields.has_meta);
        reads = ground (arith, at_m, l.has_fields.reads);
        writes = ground (arith, at_m, l.has_fields.writes);
        plain = ground (arith, at_t, l.has_fields.plain);
      };
      object_used = ground (arith, at_o, l.object_used);
      meta_used = ground (arith, at_m, l.meta_used);
      table_used = ground (arith, at_t, l.table_used);
    }

LivesIn-set_entry :
    (s : View) (o m t n : ℕ) (k : Key) (v : Value)
    → LivesIn s o m t
    → (n == m) ≡ false
    → LivesIn (set_entry s n k v) o m t
LivesIn-set_entry s o m t n k v l apart = record {
  has_fields = HasFieldsIn-set_entry s o m t n k v l.has_fields apart;
  object_used = l.object_used;
  meta_used = l.meta_used;
  table_used = l.table_used;
}

LivesIn-marked :
    (s : View) (o m t n a : ℕ) (v : Value)
    → LivesIn s o m t
    → IsApart n o m t
    → LivesIn (set_user (set_meta s n a) n v) o m t
LivesIn-marked s o m t n a v l p = record {
  has_fields = record {
    has_meta = ground (arith, eq_swap n o p.from_object, l.has_fields.has_meta);
    reads = l.has_fields.reads;
    writes = l.has_fields.writes;
    plain = ground (arith, eq_swap n t p.from_table, l.has_fields.plain);
  };
  object_used = l.object_used;
  meta_used = l.meta_used;
  table_used = l.table_used;
}

module _ {H : Type 0} (hp : LuaHeap H) (laws : IsLuaHeap hp) (dynamic_table delete_dynamic : ℕ)
    (h : H) (object : ℕ) (o m t : ℕ) (lives : LivesIn (laws.view h) o m t) where
  abbrev new_object : ℕ
  new_object = userdatum hp laws dynamic_table delete_dynamic h object

  abbrev new_meta : ℕ
  new_meta = meta hp laws dynamic_table delete_dynamic h object

  abbrev new_fields : ℕ
  new_fields = fields hp laws dynamic_table delete_dynamic h object

  abbrev h1 : H
  h1 = (hp.new_userdata h object).0

  abbrev h2 : H
  h2 = (hp.new_table h1).0

  abbrev new_heap : H
  new_heap = made hp laws dynamic_table delete_dynamic h object

  object-IsApart : IsApart new_object o m t
  object-IsApart = fresh-IsApart (laws.view h) o m t new_object lives (laws.userdata_fresh h object)

  lives_h1 : LivesIn (laws.view h1) o m t
  lives_h1 =
      rw (laws.userdata_view h object)
        (LivesIn-add_object (laws.view h) o m t new_object object lives object-IsApart)

  meta-IsApart : IsApart new_meta o m t
  meta-IsApart = fresh-IsApart (laws.view h1) o m t new_meta lives_h1 (laws.table_fresh h1)

  lives_h2 : LivesIn (laws.view h2) o m t
  lives_h2 =
      rw (laws.table_view h1)
        (LivesIn-add_object (laws.view h1) o m t new_meta 0 lives_h1 meta-IsApart)

  fields-IsApart : IsApart new_fields o m t
  fields-IsApart = fresh-IsApart (laws.view h2) o m t new_fields lives_h2 (laws.table_fresh h2)

  view-new_heap : laws.view new_heap ≡ made_view hp laws dynamic_table delete_dynamic h object
  view-new_heap = view-made hp laws dynamic_table delete_dynamic h object

  lives_new : LivesIn (laws.view new_heap) o m t
  lives_new = rw view-new_heap (
      LivesIn-marked _ o m t new_object new_meta (reference dynamic_table)
        (LivesIn-set_entry _ o m t new_meta (name (codes "__gc")) (reference delete_dynamic)
          (LivesIn-set_entry _ o m t new_meta (name (codes "__newindex")) (reference new_fields)
            (LivesIn-set_entry _ o m t new_meta (name (codes "__index")) (reference new_fields)
              (LivesIn-add_object _ o m t new_fields 0
                (LivesIn-add_object _ o m t new_meta 0
                  (LivesIn-add_object (laws.view h) o m t new_object object lives object-IsApart)
                  meta-IsApart)
                fields-IsApart)
              meta-IsApart.from_meta)
            meta-IsApart.from_meta)
          meta-IsApart.from_meta)
        object-IsApart)

  entry_kept : (j : Bytes) → (laws.view new_heap).entry t (name j) ≡ (laws.view h).entry t (name j)
  entry_kept j = rw view-new_heap (
      ground (
        arith,
        eq_swap new_object t object-IsApart.from_table,
        eq_swap new_meta t meta-IsApart.from_table,
        eq_swap new_fields t fields-IsApart.from_table,
      ))

  new_fields_in : HasFieldsIn (laws.view new_heap) new_object new_meta new_fields
  new_fields_in = made-HasFieldsIn hp laws dynamic_table delete_dynamic h object

  new_fields-meta : (new_fields == new_meta) ≡ false
  new_fields-meta = fields-meta hp laws dynamic_table delete_dynamic h object

  -- What is read of the object that was there before, and of the new one, behind a change of the heap.
  get_field-old :
      (h' : H) (j : Bytes)
      → LivesIn (laws.view h') o m t
      → (laws.view h').entry t (name j) ≡ (laws.view h).entry t (name j)
      → hp.get_field h' o j ≡ hp.get_field h o j
  get_field-old h' j l same =
      laws.get_field_view h' o m t j l.has_fields
      ∙ same
      ∙ sym (laws.get_field_view h o m t j lives.has_fields)

  -- With an object that has its fields in a table of its own, a new dynamic object shares none of them:
  -- the fields of the first are the same behind the making of the second and behind an assignment to a
  -- field of the second, and an assignment to a field of the first gives the second none.
  pub qtlua_createdynamic-apart :
      (k j : Bytes) (v : Value)
      → let made : H = (qtlua_createdynamic hp dynamic_table delete_dynamic h object).0 in
        let second : ℕ = (qtlua_createdynamic hp dynamic_table delete_dynamic h object).1 in
        (hp.get_field made o j ≡ hp.get_field h o j)
        × (hp.get_field (hp.set_field made second k v) o j ≡ hp.get_field h o j)
        × (hp.get_field (hp.set_field made o k v) second j ≡ nil)
  unfolding qtlua_createdynamic
  qtlua_createdynamic-apart k j v =
      let assigned =
        laws.set_field_view new_heap new_object new_meta new_fields k v new_fields_in in
      let first = laws.set_field_view new_heap o m t k v lives_new.has_fields in
      (
        get_field-old new_heap j lives_new (entry_kept j),
        get_field-old (hp.set_field new_heap new_object k v) j
            (rw assigned (
              LivesIn-set_entry (laws.view new_heap) o m t new_fields (name k) v lives_new
                fields-IsApart.from_meta))
            (rw assigned
              (ground (arith, eq_swap new_fields t fields-IsApart.from_table, entry_kept j))),
        laws.get_field_view (hp.set_field new_heap o k v) new_object new_meta new_fields j (
              rw first (
                HasFieldsIn-set_entry (laws.view new_heap) new_object new_meta new_fields t (name k)
                  v new_fields_in (eq_swap new_meta t meta-IsApart.from_table)))
            ∙ rw first (
                ground (
                  arith,
                  fields-IsApart.from_table,
                  made_blank hp laws dynamic_table delete_dynamic h object j,
                )),
      )
