-- ===== src/Qt/Dynamic.antt =====
-- `DynamicObject` of qtdynamic.cc. Qt's meta objects are a parameter.
pub mod Numbering
use sdl_atf.Common.{
  ℕ, Bool, true, false, Option, none, some, List, [], ◌∷◌, ◌++◌, Bytes, bytes_eq, length,
  if◌then◌else◌,
}

-- A `QHash<QByteArray, int>` as an association list.
abbrev pub Indices : Type 0
Indices = List (Bytes × ℕ)

-- `value(name, -1)`, with `none` for -1.
unfoldable pub index_of : Bytes → Indices → Option ℕ
index_of name [] = none
index_of name ((n, i) ∷ rest) = if bytes_eq name n then some i else index_of name rest

-- `QMetaObject`: a signature in its normal form, whether a slot can take the arguments of a signal,
-- and, for the other object of a connection, whether it has the signal or the slot.
pub record Meta : Type 0 where
  pub normalized : Bytes → Bytes
  pub check_connect_args : Bytes → Bytes → Bool
  pub has_signal : Bytes → Bool
  pub has_slot : Bytes → Bool

-- The slots are of a type `D`, for `DynamicSlot`.
pub record DynamicObject (D : Type 0) : Type 0 where
  pub slot_indices : Indices
  pub slot_list : List D
  pub signal_indices : Indices

abbrev pub new_object : {D : Type 0} → DynamicObject D
new_object = record { slot_indices = []; slot_list = []; signal_indices = [] }

module _ {D : Type 0} where
  -- The id of a slot, which is made where there is none.
  unfoldable pub slot_id : DynamicObject D → Bytes → D → DynamicObject D × ℕ
  slot_id o slot s = elim (index_of slot o.slot_indices) [
    | some i ↦ (o, i)
    | none ↦ (
      record o {
        slot_indices = (slot, length o.slot_list) ∷ o.slot_indices;
        slot_list = o.slot_list ++ s ∷ [];
      },
      length o.slot_list,
    )
  ]

  unfoldable pub signal_id : DynamicObject D → Bytes → DynamicObject D × ℕ
  signal_id o signal = elim (index_of signal o.signal_indices) [
    | some i ↦ (o, i)
    | none ↦ (
      record o { signal_indices = (signal, length o.signal_indices) ∷ o.signal_indices },
      length o.signal_indices,
    )
  ]

  abbrev asked : DynamicObject D × ℕ → DynamicObject D × Option ℕ
  asked (o, i) = (o, some i)

  -- The object, and the id that `QMetaObject::connect` is asked to connect, if it comes to that.
  unfoldable pub connect_dynamic_slot :
      Meta → DynamicObject D → Bytes → Bytes → D → DynamicObject D × Option ℕ
  unfolding slot_id
  connect_dynamic_slot meta o signal slot s =
      if meta.check_connect_args (meta.normalized signal) (meta.normalized slot)
      then (if meta.has_signal (meta.normalized signal)
          then asked (slot_id o (meta.normalized slot) s)
          else (o, none))
      else (o, none)

  unfoldable pub connect_dynamic_signal :
      Meta → DynamicObject D → Bytes → Bytes → DynamicObject D × Option ℕ
  unfolding signal_id
  connect_dynamic_signal meta o signal slot =
      if meta.check_connect_args (meta.normalized signal) (meta.normalized slot)
      then (if meta.has_slot (meta.normalized slot)
          then asked (signal_id o (meta.normalized signal))
          else (o, none))
      else (o, none)

  -- The index of the signal that `QMetaObject::activate` is called with.
  unfoldable pub emit_dynamic_signal : Meta → DynamicObject D → Bytes → Option ℕ
  emit_dynamic_signal meta o signal = index_of (meta.normalized signal) o.signal_indices
