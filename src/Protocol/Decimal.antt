-- ===== src/Protocol/Decimal.antt =====
-- `std::to_string` and `atoi` on numbers that are not negative.
use sdl_atf.Common.{
  ℕ, zero, suc, ◌+◌, ◌-◌, ◌*◌, ◌/◌, ◌%◌, ◌<◌, ◌≡◌, ℤ, pos, negsuc, true, false, [], ◌∷◌, arith,
  Bytes, is_digit, head_or, ltb, if◌then◌else◌,
}

-- The digits of `n` before `acc`; `f` above `n` is fuel enough.
unfoldable pub digits : ℕ → ℕ → Bytes → Bytes
digits zero n acc = acc
digits (suc f) n acc = elim (ltb n 10) [
  | true ↦ (48 + n) ∷ acc
  | false ↦ digits f (n / 10) ((48 + n % 10) ∷ acc)
]

unfoldable pub decimal : ℕ → Bytes
unfolding digits
decimal n = digits (suc n) n []

-- `std::to_string` of an integer.
unfoldable pub to_string : ℤ → Bytes
unfolding decimal
to_string (pos n) = decimal n
to_string (negsuc n) = b'-' ∷ decimal (suc n)

-- `atoi` of a text that begins with a digit or is empty, as far as it does not overflow an `int`:
-- the number that its leading digits spell.
unfoldable pub atoi_from : ℕ → Bytes → ℕ
atoi_from v [] = v
atoi_from v (c ∷ cs) = if is_digit c then atoi_from (v * 10 + (c - 48)) cs else v

unfoldable pub atoi : Bytes → ℕ
unfolding atoi_from
atoi = atoi_from 0

digits-atoi : (f n : ℕ) (acc : Bytes) → n < f → atoi_from 0 (digits f n acc) ≡ atoi_from n acc
unfolding digits atoi_from
digits-atoi zero n acc h = elim h [ ]
digits-atoi (suc f) n acc h = ground (arith, digits-atoi f (n / 10) ((48 + n % 10) ∷ acc))

-- Reading the printed number gives the number.
pub atoi-decimal : (n : ℕ) → atoi (decimal n) ≡ n
unfolding atoi decimal
atoi-decimal n = ground (arith, digits-atoi (suc n) n [])

digits_digit : (f n : ℕ) (acc : Bytes) → n < f → is_digit (head_or 0 (digits f n acc)) ≡ true
unfolding digits
digits_digit zero n acc h = elim h [ ]
digits_digit (suc f) n acc h = ground (arith, digits_digit f (n / 10) ((48 + n % 10) ∷ acc))

-- A printed number begins with a digit.
pub decimal_digit : (n : ℕ) → is_digit (head_or 0 (decimal n)) ≡ true
unfolding decimal
decimal_digit n = digits_digit (suc n) n [] (omega arith)
