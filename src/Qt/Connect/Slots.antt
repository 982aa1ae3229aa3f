-- ===== src/Qt/Connect/Slots.antt =====
-- The slots of the objects that are connected, and the references that they hold.
use sdl_atf.Common.{
  ℕ, ◌<◌, ◌≤◌, Option, List, [], ◌∷◌, ◌++◌, Bytes, arith, ◌==◌, length, length-append, if_case,
  Option-cases, inl, inr,
}
use sdl_atf.Lua.{Value}
use sdl_atf.Qt.Dynamic.{
  Meta, DynamicObject, index_of, slot_id, signal_id, connect_dynamic_slot, connect_dynamic_signal,
}
use sdl_atf.Qt.Dynamic.Numbering.{IsNumbered, slot_id-IsNumbered, signal_id-IsNumbered}
use sdl_atf.Qt.Calling.{DynamicSlot}
use sdl_atf.Qt.Connect.{Objects, set_object, add_emitter, add_reference}

-- The references of the slots lie below a bound.
abbrev pub AllBelow : ℕ → List DynamicSlot → Type 0
AllBelow n [] = Unit {0}
AllBelow n (s ∷ ss) = (s.objidx < n) × AllBelow n ss

abbrev pub IsGood : ℕ → DynamicObject DynamicSlot → Type 0
IsGood n o = IsNumbered o × AllBelow n o.slot_list

-- Every object has its ids in order, and every slot refers to a value that the registry has.
abbrev pub IsWellFormed : Objects → Type 0
IsWellFormed w = (o : ℕ) → IsGood (length w.registry) (w.objects o)

AllBelow-more : (m n : ℕ) (ss : List DynamicSlot) → m ≤ n → AllBelow m ss → AllBelow n ss
AllBelow-more m n [] le h = tt
AllBelow-more m n (s ∷ ss) le (below, rest) = (omega arith, AllBelow-more m n ss le rest)

AllBelow-append :
    (n : ℕ) (ss : List DynamicSlot) (s : DynamicSlot)
    → AllBelow n ss
    → s.objidx < n
    → AllBelow n (ss ++ s ∷ [])
AllBelow-append n [] s h below = (below, tt)
AllBelow-append n (t ∷ ts) s (first, rest) below = (first, AllBelow-append n ts s rest below)

pub slot_id-IsGood :
    (n : ℕ) (o : DynamicObject DynamicSlot) (slot : Bytes) (s : DynamicSlot)
    → IsGood n o
    → s.objidx < n
    → IsGood n (slot_id o slot s).0
unfolding slot_id
slot_id-IsGood n o slot s (v, refs) below = (
  slot_id-IsNumbered o slot s v,
  elim (Option-cases (index_of slot o.slot_indices)) [
    | inl new ↦ rw (new, slot_id) (AllBelow-append n o.slot_list s refs below)
    | inr (i, known) ↦ rw (known, slot_id) refs
  ],
)

pub signal_id-IsGood :
    (n : ℕ) (o : DynamicObject DynamicSlot) (signal : Bytes)
    → IsGood n o
    → IsGood n (signal_id o signal).0
unfolding signal_id
signal_id-IsGood n o signal (v, refs) = (
  signal_id-IsNumbered o signal v,
  elim (Option-cases (index_of signal o.signal_indices)) [
    | inl new ↦ rw (new, signal_id) refs
    | inr (i, known) ↦ rw (known, signal_id) refs
  ],
)

pub set_object-IsWellFormed :
    (w : Objects) (o : ℕ) (d : DynamicObject DynamicSlot)
    → IsWellFormed w
    → IsGood (length w.registry) d
    → IsWellFormed (set_object w o d)
set_object-IsWellFormed w o d v good n =
    if_case (IsGood (length w.registry)) (n == o) d (w.objects n) good (v n)

pub add_reference-IsWellFormed :
    (w : Objects) (receiver : Value) → IsWellFormed w → IsWellFormed (add_reference w receiver)
add_reference-IsWellFormed w receiver v n =
    let longer = length-append w.registry (receiver ∷ []) in
    (
      (v n).0,
      AllBelow-more (length w.registry) (length (w.registry ++ receiver ∷ [])) _
          (omega (arith, longer)) (v n).1,
    )

pub new_reference :
    (w : Objects) (r : Value) → length w.registry < length (add_reference w r).registry
new_reference w r = let longer = length-append w.registry (r ∷ []) in omega (arith, longer)

pub add_emitter-IsWellFormed :
    (meta : Meta) (w : Objects) (sender : ℕ) (signal : Bytes)
    → IsWellFormed w
    → IsWellFormed (add_emitter meta w sender signal)
unfolding add_emitter
add_emitter-IsWellFormed meta w sender signal v = v

-- The result of one of the functions that change one object.
abbrev pub FirstIsGood : ℕ → DynamicObject DynamicSlot × Option ℕ → Type 0
FirstIsGood n r = IsGood n r.0

pub connect_dynamic_slot-IsGood :
    (meta : Meta) (n : ℕ) (o : DynamicObject DynamicSlot) (signal slot : Bytes) (s : DynamicSlot)
    → IsGood n o
    → s.objidx < n
    → FirstIsGood n (connect_dynamic_slot meta o signal slot s)
unfolding connect_dynamic_slot
connect_dynamic_slot-IsGood meta n o signal slot s good below =
    if_case (FirstIsGood n) _ _ _
      (if_case (FirstIsGood n) _ _ _ (slot_id-IsGood n o (meta.normalized slot) s good below) good)
      good

pub connect_dynamic_signal-IsGood :
    (meta : Meta) (n : ℕ) (o : DynamicObject DynamicSlot) (signal slot : Bytes)
    → IsGood n o
    → FirstIsGood n (connect_dynamic_signal meta o signal slot)
unfolding connect_dynamic_signal
connect_dynamic_signal-IsGood meta n o signal slot good =
    if_case (FirstIsGood n) _ _ _
      (if_case (FirstIsGood n) _ _ _ (signal_id-IsGood n o (meta.normalized signal) good) good) good
