-- ===== src/Qt/Connect/Scripts.antt =====
-- The connections that a script makes, one behind the other.
use sdl_atf.Common.{
  ℕ, ◌<◌, Bool, Option, none, some, List, [], ◌∷◌, Bytes, length, if_case, Bool-cases, inl, inr,
}
use sdl_atf.Qt.Signature.{Marshaller, get_marshalling_list}
use sdl_atf.Lua.{aborted, Value, LuaApi, Called, returned, failed, arg, ◌>>=◌}
use sdl_atf.Qt.Dynamic.{Meta, DynamicObject, signal_id, connect_dynamic_signal}
use sdl_atf.Qt.Calling.{DynamicSlot, new_dynamic_slot}
use sdl_atf.Qt.Connect.{
  Objects, QtObjects, set_object, add_emitter, add_reference, connect_both, asked_slot,
  asked_signal, connect_objects, connect_fitting, with_types, with_addresses, qtlua_connect,
}
use sdl_atf.Qt.Connect.Slots.{
  IsWellFormed, FirstIsGood, slot_id-IsGood, signal_id-IsGood, connect_dynamic_slot-IsGood,
  connect_dynamic_signal-IsGood, set_object-IsWellFormed, add_reference-IsWellFormed, new_reference,
  add_emitter-IsWellFormed,
}

-- The objects behind a call; an error leaves them as they were.
abbrev pub after : Objects → Called Objects → Objects
after w (returned v results) = v
after w (failed v) = v
after w _ = w

-- A script's calls of qt.connect, each by its stack; those that raise an error are caught.
abbrev pub script : QtObjects → LuaApi → Objects → List (List Value) → Objects
script q l w [] = w
script q l w (stack ∷ rest) = script q l (after w (qtlua_connect q l w stack)) rest

module _ (q : QtObjects) where
  connect_both-IsWellFormed :
      (w : Objects) (sender : ℕ) (signal : Bytes) (receiver : ℕ) (slot : Bytes) (s : DynamicSlot)
      → IsWellFormed w
      → s.objidx < length w.registry
      → IsWellFormed (connect_both q w sender signal receiver slot s).0
  unfolding connect_both
  connect_both-IsWellFormed w sender signal receiver slot s v below =
      let the_signal : Bytes = (q.meta_of sender).normalized signal in
      let the_slot : Bytes = (q.meta_of sender).normalized slot in
      let w1 : Objects = set_object w sender (signal_id (w.objects sender) the_signal).0 in
      let v1 : IsWellFormed w1 =
        set_object-IsWellFormed w sender _ v
          (signal_id-IsGood (length w.registry) (w.objects sender) the_signal (v sender)) in
      if_case (λ (r : Objects × Bool). IsWellFormed r.0) _ _ _
        (set_object-IsWellFormed w1 receiver _ v1
          (slot_id-IsGood (length w.registry) (w1.objects receiver) the_slot s (v1 receiver) below))
        v

  asked_slot-IsWellFormed :
      (w : Objects) (sender : ℕ) (signal : Bytes) (receiver : ℕ) (slot : Bytes)
      (r : DynamicObject DynamicSlot × Option ℕ)
      → IsWellFormed w
      → FirstIsGood (length w.registry) r
      → IsWellFormed (asked_slot q w sender signal receiver slot r).0
  asked_slot-IsWellFormed w sender signal receiver slot (d, none) v good =
      set_object-IsWellFormed w receiver d v good
  asked_slot-IsWellFormed w sender signal receiver slot (d, some j) v good =
      set_object-IsWellFormed w receiver d v good

  asked_signal-IsWellFormed :
      (w : Objects) (sender : ℕ) (signal : Bytes) (receiver : ℕ) (slot : Bytes)
      (r : DynamicObject DynamicSlot × Option ℕ)
      → IsWellFormed w
      → FirstIsGood (length w.registry) r
      → IsWellFormed (asked_signal q w sender signal receiver slot r).0
  asked_signal-IsWellFormed w sender signal receiver slot (d, none) v good =
      set_object-IsWellFormed w sender d v good
  asked_signal-IsWellFormed w sender signal receiver slot (d, some i) v good =
      set_object-IsWellFormed w sender d v good

  connect_objects-IsWellFormed :
      (w : Objects) (stack : List Value) (sender : ℕ) (signal : Bytes) (receiver : ℕ) (slot : Bytes)
      → IsWellFormed w
      → IsWellFormed (after w (connect_objects q w stack sender signal receiver slot))
  unfolding connect_objects new_dynamic_slot
  connect_objects-IsWellFormed w stack sender signal receiver slot v =
      let meta : Meta = q.meta_of sender in
      let b : Value = arg 3 stack in
      let w1 : Objects = add_emitter meta w sender signal in
      elim (Bool-cases (q.is_dynamic (arg 1 stack))) [
        | inl from ↦ elim (Bool-cases (q.is_dynamic (arg 3 stack))) [
          | inl to ↦
              rw (from, to, connect_objects)
                (connect_both-IsWellFormed (add_reference w1 b) sender signal receiver slot _
                  (add_reference-IsWellFormed w1 b
                    (add_emitter-IsWellFormed meta w sender signal v))
                  (new_reference w1 b))
          | inr plain ↦
              rw (from, plain, connect_objects)
                (add_emitter-IsWellFormed meta
                  (asked_signal q w sender signal receiver slot
                    (connect_dynamic_signal (q.meta_of receiver) (w.objects sender) signal slot)).0
                  sender signal
                  (asked_signal-IsWellFormed w sender signal receiver slot _ v (
                    connect_dynamic_signal-IsGood (q.meta_of receiver) (length w.registry)
                      (w.objects sender) signal slot (v sender))))
        ]
        | inr no_from ↦ elim (Bool-cases (q.is_dynamic (arg 3 stack))) [
          | inl to ↦
              let v2 : IsWellFormed (add_reference w b) = add_reference-IsWellFormed w b v in
              rw (no_from, to, connect_objects)
                (asked_slot-IsWellFormed (add_reference w b) sender signal receiver slot _ v2 (
                  connect_dynamic_slot-IsGood meta (length (add_reference w b).registry)
                    (w.objects receiver) signal slot _ (v2 receiver) (new_reference w b)))
          | inr plain ↦ rw (no_from, plain, connect_objects) v
        ]
      ]

  with_types-IsWellFormed :
      (w : Objects) (dynamic : Bool) (signature : Bytes) (r : Called Objects)
      → IsWellFormed w
      → IsWellFormed (after w r)
      → IsWellFormed (after w (with_types q dynamic signature r))
  with_types-IsWellFormed w dynamic signature r v done =
      if_case (λ c. IsWellFormed (after w c)) dynamic _ _ (read (get_marshalling_list signature))
        done
    where
      read :
          (o : Option (List (Option Marshaller)))
          → IsWellFormed (after w (elim o [ some ms ↦ r | none ↦ aborted ]))
      read none = v
      read (some ms) = done

  connect_fitting-IsWellFormed :
      (w : Objects) (stack : List Value) (sender : ℕ) (signal : Bytes) (receiver : ℕ) (slot : Bytes)
      → IsWellFormed w
      → IsWellFormed (after w (connect_fitting q w stack sender signal receiver slot))
  unfolding connect_fitting
  connect_fitting-IsWellFormed w stack sender signal receiver slot v =
      with_types-IsWellFormed w (q.is_dynamic (arg 1 stack)) ((q.meta_of sender).normalized signal)
        _ v
        (with_types-IsWellFormed w (q.is_dynamic (arg 3 stack)) ((q.meta_of sender).normalized slot)
          _ v (connect_objects-IsWellFormed w stack sender signal receiver slot v))

  with_addresses-IsWellFormed :
      (w : Objects) (sender receiver : Option (Option ℕ)) (f : ℕ → ℕ → Called Objects)
      → IsWellFormed w
      → ((s r : ℕ) → IsWellFormed (after w (f s r)))
      → IsWellFormed (after w (with_addresses q sender receiver f))
  with_addresses-IsWellFormed w none receiver f v each = v
  with_addresses-IsWellFormed w (some sender) none f v each = v
  with_addresses-IsWellFormed w (some none) (some receiver) f v each = v
  with_addresses-IsWellFormed w (some (some sender)) (some none) f v each = v
  with_addresses-IsWellFormed w (some (some sender)) (some (some receiver)) f v each =
      each sender receiver

  module _ (l : LuaApi) where
    qtlua_connect-IsWellFormed :
        (w : Objects) (stack : List Value)
        → IsWellFormed w
        → IsWellFormed (after w (qtlua_connect q l w stack))
    unfolding qtlua_connect
    qtlua_connect-IsWellFormed w stack v =
        checked (l.check_string (arg 2 stack)) (l.check_string (arg 4 stack))
      where
        checked :
            (a b : Option Bytes)
            → IsWellFormed (
                after w (
                  a >>= λ signal. b >>= λ slot.
                  with_addresses q
                    (q.address (arg 1 stack))
                    (q.address (arg 3 stack))
                    λ sender receiver. connect_fitting q w stack sender signal receiver slot))
        checked none b = v
        checked (some signal) none = v
        checked (some signal) (some slot) =
            with_addresses-IsWellFormed w (q.address (arg 1 stack)) (q.address (arg 3 stack))
              (λ sender receiver. connect_fitting q w stack sender signal receiver slot) v
              (λ s r. connect_fitting-IsWellFormed w stack s signal r slot v)

    -- Whatever a script connects, with errors that are caught and objects connected to themselves: if at
    -- first each object's slot names have ids of their own, which are indices of its list of slots, its
    -- signal names have ids of their own below their number, and each slot refers to a value that the
    -- registry of Lua has, as where there are only new objects, then this stays so. So no call of a slot
    -- reads behind the list or behind the registry, and two slot names never share a slot.
    pub script-IsWellFormed :
        (w : Objects) (calls : List (List Value))
        → IsWellFormed w
        → IsWellFormed (script q l w calls)
    script-IsWellFormed w [] v = v
    script-IsWellFormed w (stack ∷ rest) v =
        script-IsWellFormed (after w (qtlua_connect q l w stack)) rest
          (qtlua_connect-IsWellFormed w stack v)
