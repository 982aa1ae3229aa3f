-- ===== src/Network/Ciphers.antt =====
-- `setCypherList` of network.cc. `QSslCipher`, `QSslConfiguration::supportedCiphers` and the calls of
-- QString and QStringList are a parameter.
use sdl_atf.Common.{
  map, not, lacks, ◌&&◌, inl, inr, refl, bytes_eq_iff, Bool-cases, arith, ◌≡◌, Bool, true, false,
  List, [], ◌∷◌, ◌++◌, Bytes, codes, bytes_eq, if◌then◌else◌, ◌||◌,
}

pub record QtCiphers (C : Type 0) : Type 0 where
  pub split : Bytes → List Bytes
  pub remove_duplicates : List Bytes → List Bytes
  pub cipher : Bytes → C
  pub name : C → Bytes
  pub supported_ciphers : List C

abbrev pub is_empty : Bytes → Bool
is_empty [] = true
is_empty (x ∷ xs) = false

-- `QStringList::contains`.
unfoldable pub contains : Bytes → List Bytes → Bool
contains s [] = false
contains s (t ∷ ts) = bytes_eq s t || contains s ts

module _ {C : Type 0} (q : QtCiphers C) where
  -- The loop over the names.
  unfoldable pub known_ciphers : List Bytes → List C
  known_ciphers [] = []
  known_ciphers (s ∷ ss) =
      let rest = known_ciphers ss in
      let c = q.cipher s in if is_empty (q.name c) then rest else c ∷ rest

  unfoldable pub set_cypher_list : Bytes → List C
  unfolding known_ciphers contains
  set_cypher_list cypher_list_string =
      let names = q.remove_duplicates (q.split cypher_list_string) in
      if contains (codes "ALL") names then q.supported_ciphers else known_ciphers names

abbrev pub distinct : List Bytes → Bool
distinct [] = true
distinct (s ∷ ss) = not (contains s ss) && distinct ss

-- A list of ciphers as it is written: its names with colons between them.
unfoldable pub join_names : List Bytes → Bytes
join_names [] = []
join_names (s ∷ []) = s
join_names (s ∷ t ∷ ts) = s ++ b':' ∷ join_names (t ∷ ts)

abbrev pub is_list : List Bytes → Bool
is_list [] = true
is_list (s ∷ ss) = not (is_empty s) && lacks b':' s && is_list ss

-- What Qt says of these calls: the cipher of an unknown name has the empty name.
pub record IsQtCiphers {C : Type 0} (q : QtCiphers C) : Type 0 where
  pub split-join : (ss : List Bytes) → is_list ss ≡ true → q.split (join_names ss) ≡ ss
  pub same_members :
      (s : Bytes) (ss : List Bytes) → contains s (q.remove_duplicates ss) ≡ contains s ss
  pub distinct_members : (ss : List Bytes) → distinct (q.remove_duplicates ss) ≡ true
  pub name-cipher : (s : Bytes) → is_empty (q.name (q.cipher s)) ≡ false → q.name (q.cipher s) ≡ s

-- The name is that of a cipher that Qt knows.
abbrev pub known : {C : Type 0} → QtCiphers C → Bytes → Bool
known q s = not (is_empty (q.name (q.cipher s)))

contains-same :
    (s t : Bytes) (ss : List Bytes) → bytes_eq s t ≡ true → contains s ss ≡ contains t ss
contains-same s t ss e = rw ((bytes_eq_iff s t).0 e) refl

module _ {C : Type 0} (q : QtCiphers C) (laws : IsQtCiphers q) where
  known-same : (s t : Bytes) → bytes_eq s t ≡ true → known q s ≡ known q t
  known-same s t e = rw ((bytes_eq_iff s t).0 e) refl

  contains-known_ciphers :
      (s : Bytes) (ss : List Bytes)
      → contains s (map q.name (known_ciphers q ss)) ≡ (contains s ss && known q s)
  unfolding known_ciphers contains
  contains-known_ciphers s [] = refl
  contains-known_ciphers s (t ∷ ts) = elim (Bool-cases (is_empty (q.name (q.cipher t)))) [
    | inl e ↦ ground (arith, contains-known_ciphers s ts, known-same s t)
    | inr e ↦
        rw (e, laws.name-cipher t e) (ground (arith, contains-known_ciphers s ts, known-same s t))
  ]

  distinct-known_ciphers :
      (ss : List Bytes) → distinct ss ≡ true → distinct (map q.name (known_ciphers q ss)) ≡ true
  unfolding known_ciphers contains
  distinct-known_ciphers [] h = refl
  distinct-known_ciphers (t ∷ ts) h = elim (Bool-cases (is_empty (q.name (q.cipher t)))) [
    | inl e ↦ rw e (distinct-known_ciphers ts (ground arith))
    | inr e ↦
        rw (e, laws.name-cipher t e, contains-known_ciphers t ts)
          (ground (arith, distinct-known_ciphers ts))
  ]

  -- The ciphers that setCypherList sets for a list of names with colons between them, none of them
  -- empty: if ALL is among the names, all that Qt supports; otherwise a cipher of the name `s` is set
  -- exactly if `s` is among the names and known to Qt, and no name is set twice.
  pub set_cypher_list_lem :
      (ss : List Bytes) (s : Bytes)
      → is_list ss ≡ true
      → let set : List C = set_cypher_list q (join_names ss) in
        if contains (codes "ALL") ss
        then set ≡ q.supported_ciphers
        else (contains s (map q.name set) ≡ (contains s ss && known q s))
          × (distinct (map q.name set) ≡ true)
  unfolding set_cypher_list
  set_cypher_list_lem ss s h =
      let unique : List Bytes = q.remove_duplicates ss in
      rw (laws.split-join ss h, laws.same_members (codes "ALL") ss)
        (elim (Bool-cases (contains (codes "ALL") ss)) [
          | inl e ↦ rw e refl
          | inr e ↦ rw e (
            rw (contains-known_ciphers s unique, laws.same_members s ss) refl,
            distinct-known_ciphers unique (laws.distinct_members ss),
          )
        ])
