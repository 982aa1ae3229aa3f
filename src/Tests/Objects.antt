-- ===== src/Tests/Objects.antt =====
-- Signatures and objects with dynamic slots.
use sdl_atf.Common.{
  before, ◌≢◌, Option, ℕ, ◌≡◌, refl, true, none, List, [], ◌∷◌, ◌++◌, Bytes, codes, map, bytes_eq,
  lacks,
}
use sdl_atf.Qt.Signature.{marshaller_of, marshallers_of, get_marshalling_list}
use sdl_atf.Common.{last_or, if◌then◌else◌, ◌==◌, ltb, pos, some, arith}
use sdl_atf.Lua.{nil, boolean, returned, Value, integer, text}
use sdl_atf.Qt.Signature.{int, qstring}
use sdl_atf.Qt.Calling.{
  Arguments, emitted, call_slot, new_dynamic_slot, invoked, calls, qt_metacall,
}
use sdl_atf.Qt.Connect.{Objects, QtObjects, qtlua_connect}
use sdl_atf.Qt.Connect.Slots.{IsWellFormed}
use sdl_atf.Qt.Connect.Scripts.{script, script-IsWellFormed}
use sdl_atf.Qt.Connect.Delivery.{qtlua_connect-call_slot}
use sdl_atf.Tests.Lua.{plain_lua, plain_lua-IsLuaApi}
use sdl_atf.Tests.Network.{no_tables}
use sdl_atf.Qt.Emit.{args_size, args_written, all_below, args_written_below}
use sdl_atf.Qt.Types.{last_or-append, signature_of, get_marshalling_list-signature_of}
use sdl_atf.Qt.Dynamic.{index_of, emit_dynamic_signal, Meta, new_object}
use sdl_atf.Qt.Dynamic.Numbering.{new_object-IsNumbered}

abbrev two_types : List Bytes
two_types = codes "int" ∷ codes "QString" ∷ []

get_marshalling_list-signature_of_example :
    get_marshalling_list (signature_of (codes "f") two_types) ≡ some (map marshaller_of two_types)
unfolding lacks
get_marshalling_list-signature_of_example =
    get_marshalling_list-signature_of (codes "f") two_types refl refl

args_written_below_example : all_below (args_size 9) (args_written 9) ≡ ltb 9 8
args_written_below_example = args_written_below 9

abbrev plain_meta : Meta
plain_meta = record {
  normalized = λ s. s;
  check_connect_args = λ signal slot. true;
  has_signal = λ s. true;
  has_slot = λ s. true;
}

-- A number and a text.
abbrev two_values : List Value
two_values = integer (pos 5) ∷ text (codes "a") ∷ []

-- The objects 1 and 2, both dynamic, by a Boolean and by nil.
abbrev address_of : Value → Option (Option ℕ)
address_of (boolean b) = some (some 1)
address_of nil = some (some 2)
address_of _ = none

abbrev two_objects : QtObjects
two_objects = record {
  address = address_of;
  is_dynamic = λ v. true;
  meta_of = λ n. plain_meta;
  connect_ids = λ sender i receiver j types. true;
  type_of = λ name. if last_or 0 name == b',' then 0 else 10;
  connect_to_slot = λ sender i receiver slot types. true;
  connect_from_signal = λ sender signal receiver j types. true;
  connect_plain = λ sender signal receiver slot. true;
}

abbrev fresh : Objects
fresh = record { objects = λ n. new_object; emitters = λ n. []; registry = [] }

apart : (let one : ℕ = 1 in one) ≢ 2
apart e = absurd (omega arith)

qtlua_connect-call_slot_example :
    (v : Objects) × (i : ℕ) × (j : ℕ) × (args : Arguments) × (qtlua_connect two_objects
        (plain_lua no_tables)
        fresh
        (boolean true
          ∷ text (signature_of (codes "sent") two_types)
          ∷ nil
          ∷ text (signature_of (codes "got") two_types)
          ∷ [])
      ≡ returned v (boolean true ∷ []))
    × (v.registry ≡ fresh.registry ++ nil ∷ [])
    × (v.emitters 1
        ≡ (
          codes "sent",
          record {
            signal = signature_of (codes "sent") two_types;
            marshallers = marshallers_of (signature_of (codes "sent") two_types);
          },
        )
          ∷ [])
    × (emit_dynamic_signal plain_meta (v.objects 1) (signature_of (codes "sent") two_types)
        ≡ some i)
    × (emitted
          (plain_lua no_tables)
          (marshallers_of (signature_of (codes "sent") two_types))
          two_values
        ≡ some args)
    × (qt_metacall (v.objects 2) true (pos j)
        ≡ calls (new_dynamic_slot plain_meta 0 (signature_of (codes "got") two_types)))
    × (call_slot
          (λ objidx name. true)
          (new_dynamic_slot plain_meta 0 (signature_of (codes "got") two_types))
          args
        ≡ some (invoked 0 (codes "got") two_values))
unfolding lacks before marshaller_of bytes_eq index_of
qtlua_connect-call_slot_example =
    qtlua_connect-call_slot two_objects (plain_lua no_tables) (plain_lua-IsLuaApi no_tables) fresh 1
      2 (boolean true) nil (text (signature_of (codes "sent") two_types))
      (text (signature_of (codes "got") two_types)) (codes "sent") (codes "got") two_types
      (int ∷ qstring ∷ []) two_values (λ objidx name. true) refl refl refl refl refl refl apart refl
      refl refl refl refl refl refl refl (λ t. rw (last_or-append 0 b',' t) refl) refl (omega arith)
      ((pos 5, refl, refl), ((codes "a", refl, refl), tt)) refl

-- The first object to the second, the second to itself, and a call with a number for a receiver.
abbrev three_calls : List (List Value)
three_calls =
    (boolean true ∷ text (codes "a()") ∷ nil ∷ text (codes "s()") ∷ [])
    ∷ (nil ∷ text (codes "b()") ∷ nil ∷ text (codes "s()") ∷ [])
    ∷ (nil ∷ text (codes "b()") ∷ integer (pos 1) ∷ text (codes "s()") ∷ [])
    ∷ []

script-IsWellFormed_example :
    IsWellFormed (script two_objects (plain_lua no_tables) fresh three_calls)
script-IsWellFormed_example =
    script-IsWellFormed two_objects (plain_lua no_tables) fresh three_calls
      (λ o. (new_object-IsNumbered, tt))
