-- ===== src/Qt/Connect.antt =====
-- `qtlua_connect` of qtlua.cc: how a script connects a signal of an object to a slot of another.
pub mod Delivery
pub mod Slots
pub mod Scripts
use sdl_atf.Common.{
  ℕ, suc, ℤ, Bool, true, false, Option, none, some, List, [], ◌∷◌, ◌++◌, Bytes, before,
  if◌then◌else◌, ◌==◌, length,
}
use sdl_atf.Lua.{Value, boolean, LuaApi, Called, raised, aborted, Function, ◌>>=◌, arg, give, push}
use sdl_atf.Qt.Signature.{Marshaller, marshallers_of, get_marshalling_list, types_for}
use sdl_atf.Qt.Dynamic.{
  Meta, DynamicObject, slot_id, signal_id, connect_dynamic_slot, connect_dynamic_signal,
}
use sdl_atf.Qt.Calling.{DynamicSlot, new_dynamic_slot}

-- The closure that a script calls to emit a signal, by its two upvalues.
pub record Emitter : Type 0 where
  pub signal : Bytes
  pub marshallers : List (Option Marshaller)

-- The dynamic objects by their addresses, the emitters in the index table of each, the newest first,
-- and the values that the registry of Lua holds for slots, by their references.
pub record Objects : Type 0 where
  pub objects : ℕ → DynamicObject DynamicSlot
  pub emitters : ℕ → List (Bytes × Emitter)
  pub registry : List Value

-- What Lua and Qt say of the objects: the address in a userdata, which may be null, or `none` where the
-- value is no userdata; whether it has the mark of dynamic objects; the number that `QMetaType::type`
-- gives for a name, 0 for an unknown one; and the connections that Qt makes, with the types of a queued
-- connection that it is given.
pub record QtObjects : Type 0 where
  pub address : Value → Option (Option ℕ)
  pub is_dynamic : Value → Bool
  pub meta_of : ℕ → Meta
  pub type_of : Bytes → ℕ
  pub connect_ids : ℕ → ℕ → ℕ → ℕ → Option (List ℕ) → Bool
  pub connect_to_slot : ℕ → ℕ → ℕ → Bytes → Option (List ℕ) → Bool
  pub connect_from_signal : ℕ → Bytes → ℕ → ℕ → Option (List ℕ) → Bool
  pub connect_plain : ℕ → Bytes → ℕ → Bytes → Bool

abbrev pub set_object : Objects → ℕ → DynamicObject DynamicSlot → Objects
set_object w o d = record w { objects = λ n. if n == o then d else w.objects n }

-- The emitter of a signal goes into the index table under the signal's name.
unfoldable pub add_emitter : Meta → Objects → ℕ → Bytes → Objects
add_emitter meta w sender signal =
    let normal = meta.normalized signal in
    let e : Emitter = record { signal = normal; marshallers = marshallers_of normal } in
    record w {
      emitters = λ n. if n == sender then (before b'(' normal, e) ∷ w.emitters n else w.emitters n;
    }

-- `luaL_ref`: the receiver gets the next reference.
abbrev pub add_reference : Objects → Value → Objects
add_reference w receiver = record w { registry = w.registry ++ receiver ∷ [] }

module _ (q : QtObjects) where
  -- `connectDynamicSignalToDynamicSlot` on the two objects, which may be one.
  unfoldable pub connect_both : Objects → ℕ → Bytes → ℕ → Bytes → DynamicSlot → Objects × Bool
  unfolding slot_id signal_id types_for
  connect_both w sender signal receiver slot s =
      let the_signal = (q.meta_of sender).normalized signal in
      let the_slot = (q.meta_of sender).normalized slot in
      let (d, i) = signal_id (w.objects sender) the_signal in
      let w1 = set_object w sender d in
      let (r, j) = slot_id (w1.objects receiver) the_slot s in
      if (q.meta_of sender).check_connect_args the_signal the_slot
      then (
        set_object w1 receiver r,
        q.connect_ids sender i receiver j (types_for q.type_of the_signal),
      )
      else (w, false)

  abbrev asked_slot :
      Objects → ℕ → Bytes → ℕ → Bytes → DynamicObject DynamicSlot × Option ℕ → Objects × Bool
  asked_slot w sender signal receiver slot (d, none) = (set_object w receiver d, false)
  asked_slot w sender signal receiver slot (d, some j) = (
    set_object w receiver d,
    q.connect_from_signal sender signal receiver j
        (types_for q.type_of ((q.meta_of sender).normalized slot)),
  )

  abbrev asked_signal :
      Objects → ℕ → Bytes → ℕ → Bytes → DynamicObject DynamicSlot × Option ℕ → Objects × Bool
  asked_signal w sender signal receiver slot (d, none) = (set_object w sender d, false)
  asked_signal w sender signal receiver slot (d, some i) = (
    set_object w sender d,
    q.connect_to_slot sender i receiver slot
        (types_for q.type_of ((q.meta_of receiver).normalized signal)),
  )

  abbrev answered : List Value → Objects × Bool → Called Objects
  answered stack (w, res) = give w 1 (push (boolean res) stack)

  -- Behind the checks, by which of the two objects are dynamic.
  unfoldable pub connect_objects : Objects → List Value → ℕ → Bytes → ℕ → Bytes → Called Objects
  unfolding add_emitter connect_both
  connect_objects w stack sender signal receiver slot = elim (q.is_dynamic (arg 1 stack)) [
    | true ↦ elim (q.is_dynamic (arg 3 stack)) [
      | true ↦
          let w1 = add_emitter (q.meta_of sender) w sender signal in
          let s = new_dynamic_slot (q.meta_of sender) (length w1.registry) slot in
          answered stack
            (connect_both (add_reference w1 (arg 3 stack)) sender signal receiver slot s)
      | false ↦
          let (w1, res) =
            asked_signal w sender signal receiver slot
              (connect_dynamic_signal (q.meta_of receiver) (w.objects sender) signal slot) in
          answered stack (add_emitter (q.meta_of sender) w1 sender signal, res)
    ]
    | false ↦ elim (q.is_dynamic (arg 3 stack)) [
      | true ↦
          let s = new_dynamic_slot (q.meta_of sender) (length w.registry) slot in
          let w1 = add_reference w (arg 3 stack) in
          answered stack (
            asked_slot w1 sender signal receiver slot
              (connect_dynamic_slot (q.meta_of sender) (w1.objects receiver) signal slot s))
      | false ↦ answered stack (w, q.connect_plain sender signal receiver slot)
    ]
  ]

  -- The types of a signature whose object is dynamic are read into a buffer; an overrun ends the run.
  abbrev pub with_types : Bool → Bytes → Called Objects → Called Objects
  with_types dynamic signature r =
      if dynamic then elim (get_marshalling_list signature) [ some ms ↦ r | none ↦ aborted ] else r

  unfoldable pub connect_fitting : Objects → List Value → ℕ → Bytes → ℕ → Bytes → Called Objects
  unfolding connect_objects
  connect_fitting w stack sender signal receiver slot =
      with_types (q.is_dynamic (arg 1 stack)) ((q.meta_of sender).normalized signal) (
        with_types (q.is_dynamic (arg 3 stack)) ((q.meta_of sender).normalized slot)
          (connect_objects w stack sender signal receiver slot))

  -- A value that is no userdata is dereferenced as the null pointer.
  abbrev with_addresses :
      Option (Option ℕ) → Option (Option ℕ) → (ℕ → ℕ → Called Objects) → Called Objects
  with_addresses none receiver f = aborted
  with_addresses (some sender) none f = aborted
  with_addresses (some none) (some receiver) f = raised
  with_addresses (some (some sender)) (some none) f = raised
  with_addresses (some (some sender)) (some (some receiver)) f = f sender receiver

  unfoldable pub qtlua_connect : LuaApi → Function Objects
  unfolding connect_fitting
  qtlua_connect l w stack = do
    signal ← l.check_string (arg 2 stack)
    slot ← l.check_string (arg 4 stack)
    with_addresses (q.address (arg 1 stack)) (q.address (arg 3 stack))
        λ sender receiver. connect_fitting w stack sender signal receiver slot
