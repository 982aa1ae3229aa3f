-- ===== src/Qt/Dynamic/Numbering.antt =====
-- The ids of slots and signals.
use sdl_atf.Common.{
  ℕ, suc, ◌<◌, ◌≡◌, refl, sym, ◌∙◌, some, [], ◌∷◌, ◌++◌, Bytes, arith, bytes_eq, bytes_eq_iff,
  length, length-append, if◌then◌else◌, Bool-cases, Option-cases, inl, inr,
}
use sdl_atf.Qt.Dynamic.{Indices, index_of, DynamicObject, new_object, slot_id, signal_id}

-- The ids lie below a bound, and two names never have the same.
pub record IsNumbering (xs : Indices) (bound : ℕ) : Type 0 where
  pub below : (name : Bytes) (i : ℕ) → index_of name xs ≡ some i → i < bound
  pub apart : (m n : Bytes) (i : ℕ) → index_of m xs ≡ some i → index_of n xs ≡ some i → m ≡ n

empty-IsNumbering : IsNumbering [] 0
unfolding index_of
empty-IsNumbering = record { below = λ name i e. cc; apart = λ m n i e f. cc }

-- The id of a name in a list that has been made longer by another.
index_of-cons :
    (m name : Bytes) (n : ℕ) (xs : Indices)
    → index_of m ((name, n) ∷ xs) ≡ (if bytes_eq m name then some n else index_of m xs)
unfolding index_of
index_of-cons m name n xs = refl

cons-IsNumbering :
    (name : Bytes) (xs : Indices) (bound : ℕ)
    → IsNumbering xs bound
    → IsNumbering ((name, bound) ∷ xs) (suc bound)
unfolding index_of
cons-IsNumbering name xs bound v = record {
  below = λ m i e. elim (Bool-cases (bytes_eq m name)) [
    | inl same ↦ ground arith
    | inr other ↦ let h : i < bound = v.below m i (ground arith) in omega arith
  ];
  apart = λ m n i e f. elim (Bool-cases (bytes_eq m name)) [
    | inl p ↦ elim (Bool-cases (bytes_eq n name)) [
      | inl q ↦ (bytes_eq_iff m name).0 p ∙ sym ((bytes_eq_iff n name).0 q)
      | inr q ↦
          let eq : bound ≡ i = ground arith in
          let h : i < bound = v.below n i (ground arith) in absurd (omega arith)
    ]
    | inr p ↦ elim (Bool-cases (bytes_eq n name)) [
      | inl q ↦
          let eq : bound ≡ i = ground arith in
          let h : i < bound = v.below m i (ground arith) in absurd (omega arith)
      | inr q ↦ v.apart m n i (ground arith) (ground arith)
    ]
  ];
}

module _ {D : Type 0} where
  -- Each slot name has an id of its own, which is an index of the list of slots; and each signal name
  -- has an id of its own below their number.
  pub record IsNumbered (o : DynamicObject D) : Type 0 where
    pub slots : IsNumbering o.slot_indices (length o.slot_list)
    pub signals : IsNumbering o.signal_indices (length o.signal_indices)

  pub new_object-IsNumbered : IsNumbered (new_object {D = D})
  new_object-IsNumbered = record { slots = empty-IsNumbering; signals = empty-IsNumbering }

  pub slot_id-IsNumbered :
      (o : DynamicObject D) (slot : Bytes) (s : D) → IsNumbered o → IsNumbered (slot_id o slot s).0
  unfolding slot_id
  slot_id-IsNumbered o slot s v = elim (Option-cases (index_of slot o.slot_indices)) [
    | inl new ↦
        let longer : length (o.slot_list ++ s ∷ []) ≡ suc (length o.slot_list) =
          omega (arith, length-append o.slot_list (s ∷ [])) in
        rw (new, slot_id)
          (record {
            slots = rw longer (cons-IsNumbering slot o.slot_indices (length o.slot_list) v.slots);
            signals = v.signals;
          })
    | inr (i, known) ↦ rw (known, slot_id) v
  ]

  pub signal_id-IsNumbered :
      (o : DynamicObject D) (signal : Bytes) → IsNumbered o → IsNumbered (signal_id o signal).0
  unfolding signal_id
  signal_id-IsNumbered o signal v = elim (Option-cases (index_of signal o.signal_indices)) [
    | inl new ↦
        rw (new, signal_id)
          (record {
            slots = v.slots;
            signals = cons-IsNumbering signal o.signal_indices (length o.signal_indices) v.signals;
          })
    | inr (i, known) ↦ rw (known, signal_id) v
  ]
