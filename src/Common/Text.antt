-- ===== src/Common/Text.antt =====
-- Byte strings: `std::string` as the list of its bytes, with the comparisons of C and C++.
use Prim.Native.Nat.{ℕ}
use Prim.Native.Char.{code}
use Prim.Native.String.{String}
use mathlib.Core.Path.{◌≡◌, refl}
use mathlib.Core.Logic.{◌↔◌, inl, inr}
use mathlib.Core.Option.{Option, none, some}
use mathlib.Core.Bool.{Bool, true, false, ◌&&◌}
use mathlib.Core.List.{List, [], ◌∷◌, ◌++◌}
use native.Mathlib.Omega.{arith}
use sdl_atf.Common.Tests.{◌==◌, leb, if◌then◌else◌, Option-cases}

abbrev pub Bytes : Type 0
Bytes = List ℕ

-- The code points of a text: its bytes, since every literal here is ASCII.
abbrev pub codes : String → Bytes
codes String.[] = []
codes (String.◌∷◌ c s) = code c ∷ codes s

unfoldable pub bytes_eq : Bytes → Bytes → Bool
bytes_eq [] [] = true
bytes_eq (x ∷ xs) (y ∷ ys) = x == y && bytes_eq xs ys
bytes_eq _ _ = false

pub bytes_eq_sound : (xs ys : Bytes) → bytes_eq xs ys ≡ true → xs ≡ ys
unfolding bytes_eq
bytes_eq_sound [] [] h = refl
bytes_eq_sound [] (y ∷ ys) h = cc
bytes_eq_sound (x ∷ xs) [] h = cc
bytes_eq_sound (x ∷ xs) (y ∷ ys) h = ground (arith, bytes_eq_sound xs ys)

pub bytes_eq_refl : (xs : Bytes) → bytes_eq xs xs ≡ true
unfolding bytes_eq
bytes_eq_refl [] = refl
bytes_eq_refl (x ∷ xs) = ground (arith, bytes_eq_refl xs)

pub bytes_eq_iff : (xs ys : Bytes) → (bytes_eq xs ys ≡ true) ↔ (xs ≡ ys)
bytes_eq_iff xs ys = (bytes_eq_sound xs ys, λ e. rw e (bytes_eq_refl ys))

abbrev pub is_digit : ℕ → Bool
is_digit c = leb b'0' c && leb c b'9'

-- The text up to the first byte `c`, which is left out.
unfoldable pub before : ℕ → Bytes → Bytes
before c [] = []
before c (x ∷ xs) = if x == c then [] else x ∷ before c xs

-- No byte of the text is `c`.
unfoldable pub lacks : ℕ → Bytes → Bool
lacks c [] = true
lacks c (x ∷ xs) = (if x == c then false else true) && lacks c xs

pub before-append : (c : ℕ) (xs ys : Bytes) → lacks c xs ≡ true → before c (xs ++ c ∷ ys) ≡ xs
unfolding before lacks
before-append c [] ys h = ground arith
before-append c (x ∷ xs) ys h = ground (arith, before-append c xs ys)

pub before-lacks : (c : ℕ) (xs : Bytes) → lacks c xs ≡ true → before c xs ≡ xs
unfolding before lacks
before-lacks c [] h = refl
before-lacks c (x ∷ xs) h = ground (arith, before-lacks c xs)

-- `find_last_of(d)`, `strrchr(s, d)`: the text behind the last byte `d`, if there is one.
unfoldable pub after_last : ℕ → Bytes → Option Bytes
after_last d [] = none
after_last d (x ∷ xs) = elim (after_last d xs) [
  | some r ↦ some r
  | none ↦ if x == d then some xs else none
]

pub after_last-none : (d : ℕ) (xs : Bytes) → lacks d xs ≡ true → after_last d xs ≡ none
unfolding after_last lacks
after_last-none d [] h = refl
after_last-none d (x ∷ xs) h = ground (arith, after_last-none d xs)

pub after_last-append :
    (d : ℕ) (xs ys : Bytes) → lacks d ys ≡ true → after_last d (xs ++ d ∷ ys) ≡ some ys
unfolding after_last
after_last-append d [] ys h = ground (arith, after_last-none d ys)
after_last-append d (x ∷ xs) ys h = ground (arith, after_last-append d xs ys)

pub after_last-splits :
    (d : ℕ) (xs : Bytes) {r : Bytes}
    → after_last d xs ≡ some r
    → (stem : Bytes) × (xs ≡ stem ++ d ∷ r)
unfolding after_last
after_last-splits d [] h = absurd (ground arith)
after_last-splits d (x ∷ xs) {r} h = elim (Option-cases (after_last d xs)) [
  | inl e ↦ ([], ground arith)
  | inr (s, e) ↦ let (stem, p) = after_last-splits d xs e in (x ∷ stem, ground arith)
]

-- The first entry of a table under a name.
unfoldable pub find_name {ℓ} : {A : Type ℓ} → Bytes → List (Bytes × A) → Option A
find_name name [] = none
find_name name ((n, a) ∷ rest) = if bytes_eq name n then some a else find_name name rest
