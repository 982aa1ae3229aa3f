-- ===== src/Qt/Types.antt =====
-- What is read from a well-formed list of types.
use sdl_atf.Common.{
  ℕ, ◌≡◌, refl, sym, ap, ◌∙◌, true, false, Option, none, some, List, [], ◌∷◌, ◌++◌, Bytes, map,
  append_assoc, append-nil, arith, ◌==◌, lacks, last_or, if◌then◌else◌, before, before-append,
}
use sdl_atf.Qt.Signature.{
  marshaller_of, behind_paren, type_names, get_marshalling_list, marshallers_of, all_short,
  types_for, types_from, types_from_string, queued_connection_types, join_types, are_types,
  put_type,
}

type_names-comma :
    (o : Bytes) (t r : Bytes)
    → lacks b',' t ≡ true
    → lacks b')' t ≡ true
    → type_names (some o) (t ++ b',' ∷ r) ≡ (o ++ t) ∷ type_names none r
unfolding type_names lacks
type_names-comma o [] r h k = ap (λ x. x ∷ type_names none r) (sym (append-nil o))
type_names-comma o (c ∷ cs) r h k =
    ground (arith, type_names-comma (o ++ c ∷ []) cs r, append_assoc o (c ∷ []) cs)

type_names-paren :
    (o : Bytes) (t r : Bytes)
    → lacks b',' t ≡ true
    → lacks b')' t ≡ true
    → type_names (some o) (t ++ b')' ∷ r) ≡ (o ++ t) ∷ []
unfolding type_names lacks
type_names-paren o [] r h k = ap (λ x. x ∷ []) (sym (append-nil o))
type_names-paren o (c ∷ cs) r h k =
    ground (arith, type_names-paren (o ++ c ∷ []) cs r, append_assoc o (c ∷ []) cs)

type_names-join_types :
    (t : Bytes) (ts : List Bytes)
    → are_types (t ∷ ts) ≡ true
    → type_names none (join_types (t ∷ ts) ++ b')' ∷ []) ≡ t ∷ ts
unfolding type_names lacks
type_names-join_types [] ts h = cc
type_names-join_types (c ∷ cs) [] h = ground (arith, type_names-paren (c ∷ []) cs [])
type_names-join_types (c ∷ cs) (u ∷ ts) h =
    ap (λ x. type_names none x) (append_assoc (c ∷ cs) (b',' ∷ join_types (u ∷ ts)) (b')' ∷ []))
    ∙ ground (
      arith,
      type_names-comma (c ∷ []) cs (join_types (u ∷ ts) ++ b')' ∷ []),
      type_names-join_types u ts,
    )

behind_paren-append :
    (name rest : Bytes) → lacks b'(' name ≡ true → behind_paren (name ++ b'(' ∷ rest) ≡ rest
unfolding behind_paren lacks
behind_paren-append [] rest h = refl
behind_paren-append (c ∷ cs) rest h = ground (arith, behind_paren-append cs rest)

-- The signature that `normalizedSignature` gives for a name and some types.
abbrev pub signature_of : Bytes → List Bytes → Bytes
signature_of name types = name ++ b'(' ∷ (join_types types ++ b')' ∷ [])

type_names-signature_of :
    (name : Bytes) (types : List Bytes)
    → lacks b'(' name ≡ true
    → are_types types ≡ true
    → type_names none (behind_paren (signature_of name types)) ≡ types
unfolding type_names
type_names-signature_of name [] h k = ap (type_names none) (behind_paren-append name (b')' ∷ []) h)
type_names-signature_of name (t ∷ ts) h k =
    ap (type_names none) (behind_paren-append name (join_types (t ∷ ts) ++ b')' ∷ []) h)
    ∙ type_names-join_types t ts k

pub marshallers_of-signature_of :
    (name : Bytes) (types : List Bytes)
    → lacks b'(' name ≡ true
    → are_types types ≡ true
    → marshallers_of (signature_of name types) ≡ map marshaller_of types
unfolding marshallers_of
marshallers_of-signature_of name types h k =
    ap (map marshaller_of) (type_names-signature_of name types h k)

-- A normalized signature, whose name has no opening parenthesis and whose types are not empty and have
-- no comma and no closing parenthesis, is read as exactly its types, in their order, if each of them
-- has fewer than 80 bytes: the list has one marshaller for each, or the null pointer for a type without
-- one. If one of them is longer, the buffer on the stack is overrun.
pub get_marshalling_list-signature_of :
    (name : Bytes) (types : List Bytes)
    → lacks b'(' name ≡ true
    → are_types types ≡ true
    → get_marshalling_list (signature_of name types)
      ≡ (if all_short types then some (map marshaller_of types) else none)
unfolding get_marshalling_list
get_marshalling_list-signature_of name types h k =
    rw (marshallers_of-signature_of name types h k, type_names-signature_of name types h k) refl

types_from-comma :
    (b t r : Bytes)
    → lacks b',' t ≡ true
    → types_from (some b) (t ++ b',' ∷ r) ≡ ((b ++ t) ++ b',' ∷ []) ∷ types_from none r
unfolding types_from lacks
types_from-comma b [] r h = ap (λ x. (x ++ b',' ∷ []) ∷ types_from none r) (sym (append-nil b))
types_from-comma b (c ∷ cs) r h =
    ground (arith, types_from-comma (b ++ c ∷ []) cs r, append_assoc b (c ∷ []) cs)

types_from-last :
    (b : ℕ) (bs t : Bytes)
    → lacks b',' t ≡ true
    → types_from (some (b ∷ bs)) t ≡ (b ∷ (bs ++ t)) ∷ []
unfolding types_from lacks
types_from-last b bs [] h = ap (λ x. (b ∷ x) ∷ []) (sym (append-nil bs))
types_from-last b bs (c ∷ cs) h =
    ground (arith, types_from-last b (bs ++ c ∷ []) cs, append_assoc bs (c ∷ []) cs)

-- The types, each but the last with a comma behind it.
pub with_commas : List Bytes → List Bytes
with_commas [] = []
with_commas (t ∷ []) = t ∷ []
with_commas (t ∷ u ∷ ts) = (t ++ b',' ∷ []) ∷ with_commas (u ∷ ts)

types_from-start :
    (c : ℕ) (cs : Bytes)
    → (c == b',') ≡ false
    → types_from none (c ∷ cs) ≡ types_from (some (c ∷ [])) cs
unfolding types_from
types_from-start c cs e = rw (e, types_from)

-- What the test for a list of types says of the first.
first_type :
    (c : ℕ) (cs : Bytes) (ts : List Bytes)
    → are_types ((c ∷ cs) ∷ ts) ≡ true
    → ((c == b',') ≡ false) × (lacks b',' cs ≡ true) × (are_types ts ≡ true)
unfolding lacks
first_type c cs ts h = (ground arith, ground arith, ground arith)

-- typesFromString does not split at the commas but behind them: of a list of types, none of which is
-- empty or has a comma or a closing parenthesis, it gives every type but the last together with its
-- comma.
types_from_string-join_types :
    (types : List Bytes)
    → are_types types ≡ true
    → types_from_string (join_types types) ≡ with_commas types
unfolding types_from_string with_commas lacks
types_from_string-join_types [] h = refl
types_from_string-join_types ([] ∷ ts) h = cc
types_from_string-join_types ((c ∷ cs) ∷ []) h =
    let (first, rest, _) = first_type c cs [] h in
    types_from-start c cs first ∙ types_from-last c [] cs rest
types_from_string-join_types ((c ∷ cs) ∷ u ∷ ts) h =
    let (first, rest, others) = first_type c cs (u ∷ ts) h in
    types_from-start c (cs ++ b',' ∷ join_types (u ∷ ts)) first
    ∙ types_from-comma (c ∷ []) cs (join_types (u ∷ ts)) rest
    ∙ ap (λ x. ((c ∷ cs) ++ b',' ∷ []) ∷ x) (types_from_string-join_types (u ∷ ts) others)

pub last_or-append : (d x : ℕ) (t : Bytes) → last_or d (t ++ x ∷ []) ≡ x
last_or-append d x [] = refl
last_or-append d x (c ∷ cs) = last_or-append c x cs

-- If no type is known by a name that ends in a comma, a signal or a slot with two or more types, none
-- of them empty or with a comma or a closing parenthesis, never has its types registered for queued
-- connections: queuedConnectionTypes gives the null pointer.
pub queued_connection_types-join_types :
    (type_of : Bytes → ℕ) (t u : Bytes) (ts : List Bytes)
    → ((s : Bytes) → type_of (s ++ b',' ∷ []) ≡ 0)
    → are_types (t ∷ u ∷ ts) ≡ true
    → queued_connection_types type_of (types_from_string (join_types (t ∷ u ∷ ts))) ≡ none
unfolding queued_connection_types with_commas
queued_connection_types-join_types type_of t u ts unknown h =
    ap (queued_connection_types type_of) (types_from_string-join_types (t ∷ u ∷ ts) h)
    ∙ rw (last_or-append 0 b',' t)
        (rw (unknown t) (refused (queued_connection_types type_of (with_commas (u ∷ ts)))))
  where
    refused : (o : Option (List ℕ)) → put_type 0 o ≡ none
    refused none = refl
    refused (some xs) = refl

lacks-append :
    (c : ℕ) (xs ys : Bytes) → lacks c xs ≡ true → lacks c ys ≡ true → lacks c (xs ++ ys) ≡ true
unfolding lacks
lacks-append c [] ys h k = k
lacks-append c (x ∷ xs) ys h k = ground (arith, lacks-append c xs ys)

join_types-no_paren :
    (types : List Bytes) → are_types types ≡ true → lacks b')' (join_types types) ≡ true
unfolding lacks
join_types-no_paren [] h = refl
join_types-no_paren ([] ∷ ts) h = cc
join_types-no_paren ((c ∷ cs) ∷ []) h = ground arith
join_types-no_paren ((c ∷ cs) ∷ u ∷ ts) h =
    ground (arith, join_types-no_paren (u ∷ ts), lacks-append b')' cs (b',' ∷ join_types (u ∷ ts)))

-- The types that Qt is given for a signal or slot with these types.
abbrev pub asked_types : (Bytes → ℕ) → List Bytes → Option (List ℕ)
asked_types type_of [] = some []
asked_types type_of (t ∷ []) = queued_connection_types type_of (t ∷ [])
asked_types type_of (t ∷ u ∷ ts) = none

pub types_for-signature_of :
    (type_of : Bytes → ℕ) (name : Bytes) (types : List Bytes)
    → ((s : Bytes) → type_of (s ++ b',' ∷ []) ≡ 0)
    → lacks b'(' name ≡ true
    → are_types types ≡ true
    → types_for type_of (signature_of name types) ≡ asked_types type_of types
unfolding types_for queued_connection_types with_commas
types_for-signature_of type_of name types unknown h k =
    ap (λ x. queued_connection_types type_of (types_from_string (before b')' x)))
      (behind_paren-append name (join_types types ++ b')' ∷ []) h)
    ∙ ap (λ x. queued_connection_types type_of (types_from_string x))
        (before-append b')' (join_types types) [] (join_types-no_paren types k))
    ∙ asked types k
  where
    asked :
        (ts : List Bytes)
        → are_types ts ≡ true
        → queued_connection_types type_of (types_from_string (join_types ts))
          ≡ asked_types type_of ts
    asked [] k' = ap (queued_connection_types type_of) (types_from_string-join_types [] k')
    asked (t ∷ []) k' =
        ap (queued_connection_types type_of) (types_from_string-join_types (t ∷ []) k')
    asked (t ∷ u ∷ ts) k' = queued_connection_types-join_types type_of t u ts unknown k'

-- The buffer is overrun for none of these types.
pub get_marshalling_list-short :
    (name : Bytes) (types : List Bytes)
    → lacks b'(' name ≡ true
    → are_types types ≡ true
    → all_short types ≡ true
    → get_marshalling_list (signature_of name types)
      ≡ some (marshallers_of (signature_of name types))
get_marshalling_list-short name types h k short =
    get_marshalling_list-signature_of name types h k
    ∙ rw short (ap (λ x. some x) (sym (marshallers_of-signature_of name types h k)))
