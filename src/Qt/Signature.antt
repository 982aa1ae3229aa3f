-- ===== src/Qt/Signature.antt =====
-- How the types in the signature of a signal or a slot are read: `get_marshalling_list` of marshal.cc,
-- `typesFromString` and `queuedConnectionTypes` of qtdynamic.cc. A `const char *` is its text.
use sdl_atf.Common.{
  ℕ, Bool, true, false, ◌&&◌, Option, none, some, List, [], ◌∷◌, ◌++◌, Bytes, codes, map, ◌==◌,
  before, length, ltb, bytes_eq, lacks, last_or, if◌then◌else◌,
}

-- The kinds of `Marshaller`.
pub data Marshaller : Type 0 where
  int qint64 bool qstring qbytearray : Marshaller

-- `Marshaller::get`: the null pointer for a type that is not in the table.
unfoldable pub marshaller_of : Bytes → Option Marshaller
marshaller_of type =
    if bytes_eq type (codes "int")
    then some int
    else if bytes_eq type (codes "qint64")
    then some qint64
    else if bytes_eq type (codes "bool")
    then some bool
    else if bytes_eq type (codes "QString")
    then some qstring
    else if bytes_eq type (codes "QByteArray")
    then some qbytearray
    else none

-- `while (*p && *p++ != '(');`
unfoldable pub behind_paren : Bytes → Bytes
behind_paren [] = []
behind_paren (c ∷ cs) = if c == b'(' then cs else behind_paren cs

abbrev or_nil : Option Bytes → Bytes
or_nil none = []
or_nil (some buffer) = buffer

abbrev end_of : Option Bytes → List Bytes
end_of none = []
end_of (some buffer) = buffer ∷ []

-- The outer loop, `none`, and the inner loop with what it has put into the buffer.
unfoldable pub type_names : Option Bytes → Bytes → List Bytes
type_names o [] = end_of o
type_names o (c ∷ cs) = elim (c == b')') [
  | true ↦ end_of o
  | false ↦ elim (c == b',') [
    | true ↦ or_nil o ∷ type_names none cs
    | false ↦ type_names (some (or_nil o ++ c ∷ [])) cs
  ]
]

-- What is read where the buffer holds each of the texts.
unfoldable pub marshallers_of : Bytes → List (Option Marshaller)
unfolding behind_paren type_names
marshallers_of signature = map marshaller_of (type_names none (behind_paren signature))

-- Each of the texts fits into `char buffer[80]` with the 0 behind it.
abbrev pub all_short : List Bytes → Bool
all_short [] = true
all_short (t ∷ ts) = ltb (length t) 80 && all_short ts

-- `none`: the buffer on the stack is overrun.
unfoldable pub get_marshalling_list : Bytes → Option (List (Option Marshaller))
unfolding behind_paren type_names
get_marshalling_list signature =
    if all_short (type_names none (behind_paren signature))
    then some (marshallers_of signature)
    else none

abbrev unless_empty : Bytes → List Bytes
unless_empty [] = []
unless_empty (c ∷ cs) = (c ∷ cs) ∷ []

-- `typesFromString` between `str` and `end`: the outer loop, `none`, and the inner loop with the text
-- from `b` to `p`.
unfoldable pub types_from : Option Bytes → Bytes → List Bytes
types_from none [] = []
types_from (some b) [] = unless_empty b
types_from none (c ∷ cs) = elim (c == b',') [
  | true ↦ types_from (some []) cs
  | false ↦ types_from (some (c ∷ [])) cs
]
types_from (some b) (c ∷ cs) = elim (c == b',') [
  | true ↦ (b ++ c ∷ []) ∷ types_from none cs
  | false ↦ types_from (some (b ++ c ∷ [])) cs
]

unfoldable pub types_from_string : Bytes → List Bytes
unfolding types_from
types_from_string = types_from none

-- `QMetaType::VoidStar`
abbrev pub void_star : ℕ
void_star = 31

abbrev pub put_type : ℕ → Option (List ℕ) → Option (List ℕ)
put_type t none = none
put_type t (some ts) = if t == 0 then none else some (t ∷ ts)

-- With `QMetaType::type` for a parameter; the terminating 0 is left out.
unfoldable pub queued_connection_types : (Bytes → ℕ) → List Bytes → Option (List ℕ)
queued_connection_types type_of [] = some []
queued_connection_types type_of (name ∷ names) =
    let rest = queued_connection_types type_of names in
    put_type (if last_or 0 name == b'*' then void_star else type_of name) rest

-- What is passed to QMetaObject::connect as the types of a signal or a slot whose text has both
-- parentheses; `none` is the null pointer.
unfoldable pub types_for : (Bytes → ℕ) → Bytes → Option (List ℕ)
unfolding queued_connection_types types_from_string behind_paren
types_for type_of text =
    queued_connection_types type_of (types_from_string (before b')' (behind_paren text)))

-- The text of a list of types, with commas between them.
abbrev pub join_types : List Bytes → Bytes
join_types [] = []
join_types (t ∷ []) = t
join_types (t ∷ u ∷ ts) = t ++ b',' ∷ join_types (u ∷ ts)

abbrev pub is_type : Bytes → Bool
is_type [] = false
is_type (c ∷ cs) = lacks b',' (c ∷ cs) && lacks b')' (c ∷ cs)

-- None of the types is empty, has a comma, or has a closing parenthesis.
abbrev pub are_types : List Bytes → Bool
are_types [] = true
are_types (t ∷ ts) = is_type t && are_types ts
