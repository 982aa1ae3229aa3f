-- ===== src/Qt/Connect/Delivery.antt =====
-- A connection that a script makes between two of its objects, and what is emitted through it.
use sdl_atf.Common.{
  ℕ, ◌≡◌, ◌≢◌, ◌<◌, refl, ap, sym, pos, Bool, true, false, Option, none, some, List, [], ◌∷◌, ◌++◌,
  Bytes, ◌∙◌, before-append, lacks, length, map, ◌==◌, bytes_eq_refl, arith, Option-cases, inl, inr,
}
use sdl_atf.Lua.{Value, boolean, LuaApi, IsLuaApi, returned, Called}
use sdl_atf.Qt.Signature.{
  Marshaller, marshaller_of, marshallers_of, get_marshalling_list, types_for, all_short, are_types,
  join_types,
}
use sdl_atf.Qt.Types.{signature_of, asked_types, types_for-signature_of, get_marshalling_list-short}
use sdl_atf.Qt.Dynamic.{DynamicObject, index_of, slot_id, signal_id, emit_dynamic_signal}
use sdl_atf.Qt.Calling.{
  DynamicSlot, new_dynamic_slot, Arguments, emitted, call_slot, invoked, AllFit, call_slot-emitted,
  calls, slot_at, qt_metacall,
}
use sdl_atf.Qt.Connect.{
  Objects, QtObjects, set_object, add_emitter, add_reference, connect_both, connect_objects,
  connect_fitting, with_types, qtlua_connect,
}

index_of-signal_id :
    (o : DynamicObject DynamicSlot) (signal : Bytes)
    → index_of signal (signal_id o signal).0.signal_indices ≡ some (signal_id o signal).1
unfolding signal_id index_of
index_of-signal_id o signal = elim (Option-cases (index_of signal o.signal_indices)) [
  | inl e ↦ rw (signal_id, e) (rw (index_of, bytes_eq_refl signal) refl)
  | inr (i, e) ↦ rw (signal_id, e) e
]

slot_at-append :
    (ss : List DynamicSlot) (s : DynamicSlot) → slot_at (length ss) (ss ++ s ∷ []) ≡ calls s
unfolding slot_at
slot_at-append [] s = refl
slot_at-append (t ∷ ts) s = slot_at-append ts s

-- A slot that is new to the object.
qt_metacall-slot_id :
    (o : DynamicObject DynamicSlot) (slot : Bytes) (s : DynamicSlot)
    → index_of slot o.slot_indices ≡ none
    → qt_metacall (slot_id o slot s).0 true (pos (slot_id o slot s).1) ≡ calls s
unfolding slot_id qt_metacall
qt_metacall-slot_id o slot s new = rw (slot_id, new) (slot_at-append o.slot_list s)

module _ (q : QtObjects) (w : Objects) (sender receiver : ℕ) (b : Value) (signal slot : Bytes) where
  -- The state that a connection of two dynamic objects leaves, step by step.
  abbrev made_slot : DynamicSlot
  made_slot = new_dynamic_slot (q.meta_of sender) (length w.registry) slot

  abbrev signalled : DynamicObject DynamicSlot × ℕ
  signalled = signal_id (w.objects sender) signal

  abbrev with_signal : Objects
  with_signal =
      set_object (add_reference (add_emitter (q.meta_of sender) w sender signal) b) sender
        signalled.0

  abbrev slotted : DynamicObject DynamicSlot × ℕ
  slotted = slot_id (w.objects receiver) slot made_slot

  abbrev pub connected : Objects
  connected = set_object with_signal receiver slotted.0

  module _ (apart : (receiver == sender) ≡ false)
      (normal_signal : (q.meta_of sender).normalized signal ≡ signal)
      (normal_slot : (q.meta_of sender).normalized slot ≡ slot)
      (agree : (q.meta_of sender).check_connect_args signal slot ≡ true) where
    connect_both_lem :
        connect_both q
          (add_reference (add_emitter (q.meta_of sender) w sender signal) b)
          sender
          signal
          receiver
          slot
          made_slot
        ≡ (
          connected,
          q.connect_ids sender signalled.1 receiver slotted.1 (types_for q.type_of signal),
        )
    unfolding connect_both add_emitter
    connect_both_lem = rw (normal_signal, normal_slot, agree, apart) refl

    connect_objects_lem :
        (a c d : Value)
        → q.is_dynamic a ≡ true
        → q.is_dynamic b ≡ true
        → connect_objects q w (a ∷ c ∷ b ∷ d ∷ []) sender signal receiver slot
          ≡ returned connected (
              boolean
                (q.connect_ids sender signalled.1 receiver slotted.1 (types_for q.type_of signal))
              ∷ [])
    unfolding connect_objects add_emitter
    connect_objects_lem a c d dyn_a dyn_b =
        rw (connect_objects, dyn_a, dyn_b) (rw connect_both_lem refl)

with_types_lem :
    (q : QtObjects) (dynamic : Bool) (signature : Bytes) (r : Called Objects)
    (ms : List (Option Marshaller))
    → get_marshalling_list signature ≡ some ms
    → with_types q dynamic signature r ≡ r
with_types_lem q true signature r ms e = rw e refl
with_types_lem q false signature r ms e = refl

module _ (q : QtObjects) (w : Objects) (a b c d : Value) (sender receiver : ℕ) (signal slot : Bytes)
    (ms ns : List (Option Marshaller)) where
  connect_fitting_lem :
      get_marshalling_list ((q.meta_of sender).normalized signal) ≡ some ms
      → get_marshalling_list ((q.meta_of sender).normalized slot) ≡ some ns
      → connect_fitting q w (a ∷ c ∷ b ∷ d ∷ []) sender signal receiver slot
        ≡ connect_objects q w (a ∷ c ∷ b ∷ d ∷ []) sender signal receiver slot
  unfolding connect_fitting
  connect_fitting_lem from to =
      let r = connect_objects q w (a ∷ c ∷ b ∷ d ∷ []) sender signal receiver slot in
      with_types_lem q (q.is_dynamic a) ((q.meta_of sender).normalized signal) _ ms from
      ∙ with_types_lem q (q.is_dynamic b) ((q.meta_of sender).normalized slot) r ns to

same : (n : ℕ) → (n == n) ≡ true
same n = ground arith

differs : (m n : ℕ) → m ≢ n → (n == m) ≡ false
differs m n h = ground arith

module _ (q : QtObjects) (l : LuaApi) (laws : IsLuaApi l) (w : Objects) (sender receiver : ℕ)
    (a b c d : Value) (signal slot : Bytes) (types : List Bytes) where
  -- `qt.connect(sender, signal, receiver, slot)` of two dynamic objects of a script, for a signal and a
  -- slot with the same types that Qt can connect, each of fewer than 80 bytes, the slot new to the
  -- receiver, gives what Qt says of the queued connection of the signal's id with the slot's. Qt is
  -- given the types of the connection only if there is at most one: for two or more it is given the
  -- null pointer, provided it knows no type by a name that ends in a comma. From then on the sender has an emitter under the
  -- signal's name; it emits just this id, and the arguments of the values it is called with, if these
  -- fit the types, which are fewer than eight and each with a marshaller; the receiver calls for the
  -- slot's id just this slot; and the slot calls the receiver's function of its name, if there is one,
  -- with exactly these values. Whether Qt then carries the arguments of an emission from the one id to
  -- the other, which for two or more it is to do without their types, is not part of this.
  pub qtlua_connect-call_slot :
      (ms : List Marshaller) (vs : List Value) (has_function : ℕ → Bytes → Bool)
      → l.check_string c ≡ some (signature_of signal types)
      → l.check_string d ≡ some (signature_of slot types)
      → q.address a ≡ some (some sender)
      → q.address b ≡ some (some receiver)
      → q.is_dynamic a ≡ true
      → q.is_dynamic b ≡ true
      → sender ≢ receiver
      → (q.meta_of sender).normalized (signature_of signal types) ≡ signature_of signal types
      → (q.meta_of sender).normalized (signature_of slot types) ≡ signature_of slot types
      → (q.meta_of sender).check_connect_args (signature_of signal types) (signature_of slot types)
        ≡ true
      → index_of (signature_of slot types) (w.objects receiver).slot_indices ≡ none
      → lacks b'(' signal ≡ true
      → lacks b'(' slot ≡ true
      → are_types types ≡ true
      → all_short types ≡ true
      → ((t : Bytes) → q.type_of (t ++ b',' ∷ []) ≡ 0)
      → map marshaller_of types ≡ map (λ m. some m) ms
      → length ms < 8
      → AllFit ms vs
      → has_function (length w.registry) slot ≡ true
      → let the_signal : Bytes = signature_of signal types in
        let s : DynamicSlot =
          new_dynamic_slot (q.meta_of sender) (length w.registry) (signature_of slot types) in
        (v : Objects) × (i : ℕ) × (j : ℕ) × (args : Arguments) × (qtlua_connect q l w
            (a ∷ c ∷ b ∷ d ∷ [])
          ≡ returned v
              (boolean (q.connect_ids sender i receiver j (asked_types q.type_of types)) ∷ []))
        × (v.registry ≡ w.registry ++ b ∷ [])
        × (v.emitters sender
            ≡ (signal, record { signal = the_signal; marshallers = marshallers_of the_signal })
              ∷ w.emitters sender)
        × (emit_dynamic_signal (q.meta_of sender) (v.objects sender) the_signal ≡ some i)
        × (emitted l (marshallers_of the_signal) vs ≡ some args)
        × (qt_metacall (v.objects receiver) true (pos j) ≡ calls s)
        × (call_slot has_function s args ≡ some (invoked (length w.registry) slot vs))
  unfolding qtlua_connect add_emitter emit_dynamic_signal
  qtlua_connect-call_slot ms vs has_function text_c text_d at_a at_b dyn_a dyn_b apart normal_signal
        normal_slot agree new plain_signal plain_slot good_types short unknown known few fit has =
      let the_signal : Bytes = signature_of signal types in
      let the_slot : Bytes = signature_of slot types in
      let s : DynamicSlot = new_dynamic_slot (q.meta_of sender) (length w.registry) the_slot in
      let (args, there, back) =
        call_slot-emitted l laws (q.meta_of sender) has_function signal slot types ms vs
          (length w.registry) normal_slot plain_signal plain_slot good_types known few fit has in
      (
        connected q w sender receiver b the_signal the_slot,
        (signal_id (w.objects sender) the_signal).1,
        (slot_id (w.objects receiver) the_slot s).1,
        args,
        rw (text_c, text_d, at_a, at_b)
            (connect_fitting_lem q w a b c d sender receiver the_signal the_slot
                (marshallers_of the_signal) (marshallers_of the_slot)
                (ap get_marshalling_list normal_signal
                  ∙ get_marshalling_list-short signal types plain_signal good_types short)
                (ap get_marshalling_list normal_slot
                  ∙ get_marshalling_list-short slot types plain_slot good_types short)
              ∙ connect_objects_lem q w sender receiver b the_signal the_slot
                  (differs sender receiver apart) normal_signal normal_slot agree a c d dyn_a dyn_b
              ∙ ap
                  (λ ts. returned (connected q w sender receiver b the_signal the_slot) (
                    boolean (
                      q.connect_ids sender (signal_id (w.objects sender) the_signal).1 receiver
                        (slot_id (w.objects receiver) the_slot s).1 ts)
                    ∷ []))
                  (types_for-signature_of q.type_of signal types unknown plain_signal good_types)),
        refl,
        rw (same sender, normal_signal)
            (ap
              (λ n.
                (n, record { signal = the_signal; marshallers = marshallers_of the_signal })
                ∷ w.emitters sender)
              (before-append b'(' signal (join_types types ++ b')' ∷ []) plain_signal)),
        rw (differs receiver sender (λ e. apart (sym e)), same sender, normal_signal)
            (index_of-signal_id (w.objects sender) the_signal),
        there,
        rw (same receiver) (qt_metacall-slot_id (w.objects receiver) the_slot s new),
        back,
      )
