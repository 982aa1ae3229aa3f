-- ===== src/Qt/Calling.antt =====
-- From the emission of a signal in Lua to the call of a slot in Lua: `qtlua_emit_signal` of qtlua.cc,
-- and `qt_metacall` and `DynamicSlot` of qtdynamic.cc.
use sdl_atf.Common.{
  ℕ, zero, suc, ◌≡◌, ◌<◌, refl, ap, ◌∙◌, ℤ, pos, negsuc, Bool, true, false, Option, none, some,
  List, [], ◌∷◌, ◌++◌, Bytes, before, before-append, lacks, length, map, ltb, lt→ltb,
}
use sdl_atf.Lua.{Value, LuaApi, IsLuaApi}
use sdl_atf.Qt.Signature.{Marshaller, marshaller_of, marshallers_of, are_types, join_types}
use sdl_atf.Qt.Types.{signature_of, marshallers_of-signature_of}
use sdl_atf.Qt.Dynamic.{DynamicObject, Meta}
use sdl_atf.Qt.Marshal.{Variant, marshal, unmarshal, Fits, unmarshal-marshal}

-- The arguments of a signal behind the null pointer for its result.
abbrev pub Arguments : Type 0
Arguments = List (Option Variant)

abbrev put_first : Option Variant → Option Arguments → Option Arguments
put_first v none = none
put_first v (some args) = some (v ∷ args)

-- The loop over the marshallers, for the values that the emitter is called with; where there are
-- fewer, what is missing is nil. A null marshaller ends the program (`none`).
unfoldable pub marshal_all : LuaApi → List (Option Marshaller) → List Value → Option Arguments
marshal_all l [] vs = some []
marshal_all l (none ∷ ms) vs = none
marshal_all l (some m ∷ ms) [] = put_first (marshal l m Value.nil) (marshal_all l ms [])
marshal_all l (some m ∷ ms) (v ∷ vs) = put_first (marshal l m v) (marshal_all l ms vs)

-- What `emitDynamicSignal` is called with; the writing of eight arguments or more goes behind the end
-- of the array, as in `args_written`.
unfoldable pub emitted : LuaApi → List (Option Marshaller) → List Value → Option Arguments
unfolding marshal_all
emitted l ms vs = elim (ltb (length ms) 8) [ true ↦ marshal_all l ms vs | false ↦ none ]

-- `objidx` is where the registry of Lua has the object.
pub record DynamicSlot : Type 0 where
  pub marshallers : List (Option Marshaller)
  pub objidx : ℕ
  pub slot : Bytes

-- The constructor of `DynamicSlot`.
unfoldable pub new_dynamic_slot : Meta → ℕ → Bytes → DynamicSlot
new_dynamic_slot meta objidx signature = record {
  marshallers = marshallers_of (meta.normalized signature);
  objidx = objidx;
  slot = before b'(' signature;
}

abbrev put_value : Option Value → Option (List Value) → Option (List Value)
put_value none vs = none
put_value (some v) none = none
put_value (some v) (some vs) = some (v ∷ vs)

-- The loop of `DynamicSlot::call`; `none` where nothing is defined.
unfoldable pub unmarshal_all : List (Option Marshaller) → Arguments → Option (List Value)
unmarshal_all [] args = some []
unmarshal_all (some m ∷ ms) (a ∷ args) = put_value (unmarshal m a) (unmarshal_all ms args)
unmarshal_all _ _ = none

-- The call of the function `name` of the object, behind the object itself with these values; nothing
-- is called where the object has no such function.
pub data Invocation : Type 0 where
  invoked : ℕ → Bytes → List Value → Invocation
  no_function : Invocation

abbrev invocation : ℕ → Bytes → Option (List Value) → Option Invocation
invocation objidx name none = none
invocation objidx name (some vs) = some (invoked objidx name vs)

-- `DynamicSlot::call`
unfoldable pub call_slot : (ℕ → Bytes → Bool) → DynamicSlot → Arguments → Option Invocation
unfolding unmarshal_all
call_slot has_function s args = elim (has_function s.objidx s.slot) [
  | true ↦ invocation s.objidx s.slot (unmarshal_all s.marshallers args)
  | false ↦ some no_function
]

-- What `qt_metacall` does with the id that `QObject::qt_metacall` has left: it gives it back, it calls a
-- slot, or its assertion fails.
pub data Metacall : Type 0 where
  given_back : ℤ → Metacall
  calls : DynamicSlot → Metacall
  assertion : Metacall

unfoldable pub slot_at : ℕ → List DynamicSlot → Metacall
slot_at id [] = assertion
slot_at zero (s ∷ ss) = calls s
slot_at (suc id) (s ∷ ss) = slot_at id ss

unfoldable pub qt_metacall : DynamicObject DynamicSlot → Bool → ℤ → Metacall
unfolding slot_at
qt_metacall o invoke (negsuc n) = given_back (negsuc n)
qt_metacall o false (pos id) = given_back (pos id)
qt_metacall o true (pos id) = slot_at id o.slot_list

-- Each value fits its marshaller, and there is one for each.
abbrev pub AllFit : List Marshaller → List Value → Type 0
AllFit [] [] = Unit
AllFit (m ∷ ms) (v ∷ vs) = Fits m v × AllFit ms vs
AllFit _ _ = false ≡ true

module _ (l : LuaApi) (laws : IsLuaApi l) where
  -- The arguments that the values become, and what becomes of them again.
  unmarshal_all-marshal_all :
      (ms : List Marshaller) (vs : List Value)
      → AllFit ms vs
      → (args : Arguments) × (marshal_all l (map some ms) vs ≡ some args)
        × (unmarshal_all (map some ms) args ≡ some vs)
  unfolding marshal_all unmarshal_all
  unmarshal_all-marshal_all [] [] fit = ([], refl, refl)
  unmarshal_all-marshal_all [] (v ∷ vs) fit = cc
  unmarshal_all-marshal_all (m ∷ ms) [] fit = cc
  unmarshal_all-marshal_all (m ∷ ms) (v ∷ vs) (here, rest) =
      let (args, there, back) = unmarshal_all-marshal_all ms vs rest in
      (marshal l m v ∷ args, rw there refl, rw (unmarshal-marshal l laws m v here, back) refl)

  length-map : (ms : List Marshaller) → length (map (λ m. some m) ms) ≡ length ms
  length-map [] = refl
  length-map (m ∷ ms) = ap suc (length-map ms)

  emitted_lem :
      (ms : List (Option Marshaller)) (vs : List Value) (args : Arguments)
      → length ms < 8
      → marshal_all l ms vs ≡ some args
      → emitted l ms vs ≡ some args
  unfolding emitted
  emitted_lem ms vs args few e = rw (emitted, lt→ltb (length ms) 8 few) e

  call_slot_lem :
      (has_function : ℕ → Bytes → Bool) (s : DynamicSlot) (args : Arguments) (vs : List Value)
      → has_function s.objidx s.slot ≡ true
      → unmarshal_all s.marshallers args ≡ some vs
      → call_slot has_function s args ≡ some (invoked s.objidx s.slot vs)
  unfolding call_slot
  call_slot_lem has_function s args vs has e = rw (call_slot, has, e) refl

  -- A script emits a signal with values, and the slot of another object of the script is called with
  -- exactly these values, in their order: for a signal and a slot with the same types, fewer than eight
  -- and each with a marshaller, values that fit the types (integers of their width, texts without NUL
  -- bytes for QString), and an object that has the function. What lies between, the delivery of the
  -- arguments by Qt, is taken to keep them.
  pub call_slot-emitted :
      (meta : Meta) (has_function : ℕ → Bytes → Bool) (signal slot : Bytes) (types : List Bytes)
      (ms : List Marshaller) (vs : List Value) (objidx : ℕ)
      → meta.normalized (signature_of slot types) ≡ signature_of slot types
      → lacks b'(' signal ≡ true
      → lacks b'(' slot ≡ true
      → are_types types ≡ true
      → map marshaller_of types ≡ map (λ m. some m) ms
      → length ms < 8
      → AllFit ms vs
      → has_function objidx slot ≡ true
      → (args : Arguments) × (emitted l (marshallers_of (signature_of signal types)) vs ≡ some args)
        × (call_slot has_function (new_dynamic_slot meta objidx (signature_of slot types)) args
            ≡ some (invoked objidx slot vs))
  unfolding new_dynamic_slot
  call_slot-emitted meta has_function signal slot types ms vs objidx normal plain_signal plain_slot
        good_types known few fit has =
      let (args, there, back) = unmarshal_all-marshal_all ms vs fit in
      let name : before b'(' (signature_of slot types) ≡ slot =
        before-append b'(' slot (join_types types ++ b')' ∷ []) plain_slot in
      let readers : marshallers_of (meta.normalized (signature_of slot types))
          ≡ map (λ m. some m) ms =
        ap marshallers_of normal
        ∙ marshallers_of-signature_of slot types plain_slot good_types
        ∙ known in
      (
        args,
        ap (λ x. emitted l x vs)
              (marshallers_of-signature_of signal types plain_signal good_types ∙ known)
            ∙ emitted_lem (map (λ m. some m) ms) vs args (rw (length-map ms) few) there,
        call_slot_lem has_function (new_dynamic_slot meta objidx (signature_of slot types)) args vs
              (ap (has_function objidx) name ∙ has) (ap (λ x. unmarshal_all x args) readers ∙ back)
            ∙ ap (λ n. some (invoked objidx n vs)) name,
      )
