-- ===== src/Server/Port.antt =====
-- main.cc: the port that the server listens on.
use sdl_atf.Common.{
  ℕ, zero, suc, ◌+◌, ◌/◌, ◌%◌, ◌<◌, ◌≡◌, pos, Bool, true, false, ◌&&◌, List, [], ◌∷◌, arith, Bytes,
  head_or, drop, is_digit, to_unsigned, ◌==◌, ◌^◌, lt→ltb, ltb, if◌then◌else◌, Bool-cases, inl, inr,
}
use sdl_atf.Protocol.Decimal.{digits, decimal, atoi, atoi-decimal}

unfoldable pub all_digits : Bytes → Bool
all_digits [] = true
all_digits (c ∷ cs) = is_digit c && all_digits cs

-- Behind the end of a `std::string` stands a NUL byte.
unfoldable pub is_unsigned_number : Bytes → Bool
unfolding all_digits
is_unsigned_number number =
    if head_or 0 number == b'-' && is_digit (head_or 0 (drop 1 number))
    then false
    else all_digits number

abbrev pub default_port : ℕ
default_port = 5555

-- `const uint16_t arg_port = std::atoi(...)`
abbrev pub arg_port : ℕ → ℕ
arg_port value = let port = to_unsigned 16 (pos value) in if port == 0 then default_port else port

-- `main` up to the server's start: it prints the usage, or has a port; where the number does not fit
-- an `int`, nothing is defined of `std::atoi`.
pub data Choice : Type 0 where
  usage : Choice
  at : ℕ → Choice
  overflown : Choice

unfoldable pub choose_port : List Bytes → Choice
unfolding is_unsigned_number atoi
choose_port [] = at default_port
choose_port (number ∷ []) =
    if is_unsigned_number number
    then (if ltb (atoi number) (2 ^ 31) then at (arg_port (atoi number)) else overflown)
    else usage
choose_port (_ ∷ _ ∷ _) = usage

digits_all : (f n : ℕ) (acc : Bytes) → all_digits acc ≡ true → all_digits (digits f n acc) ≡ true
unfolding digits all_digits
digits_all zero n acc h = h
digits_all (suc f) n acc h = ground (arith, digits_all f (n / 10) ((48 + n % 10) ∷ acc))

digits_head :
    (f n : ℕ) (acc : Bytes)
    → n < f
    → (c : ℕ) × (cs : Bytes) × (digits f n acc ≡ c ∷ cs) × (is_digit c ≡ true)
unfolding digits
digits_head zero n acc h = elim h [ ]
digits_head (suc f) n acc h = elim (Bool-cases (ltb n 10)) [
  | inl small ↦ (48 + n, acc, rw (small, digits), ground arith)
  | inr big ↦
      let (c, cs, e, d) = digits_head f (n / 10) ((48 + n % 10) ∷ acc) (ground arith) in
      (c, cs, rw (big, digits) e, d)
]

is_unsigned_number-decimal : (n : ℕ) → is_unsigned_number (decimal n) ≡ true
unfolding is_unsigned_number decimal
is_unsigned_number-decimal n =
    let (c, cs, e, d) = digits_head (suc n) n [] (omega arith) in
    ground (arith, digits_all (suc n) n [])

-- Started with one argument that is the decimal text of a number below 2 ^ 31, the server listens on
-- that number modulo 65536, or on 5555 where that is 0.
pub choose_port-decimal :
    (n : ℕ)
    → n < 2 ^ 31
    → choose_port (decimal n ∷ []) ≡ at (if n % 65536 == 0 then 5555 else n % 65536)
unfolding choose_port
choose_port-decimal n small =
    rw (is_unsigned_number-decimal n, choose_port)
      (rw (atoi-decimal n) (rw (lt→ltb n (2 ^ 31) small) (ground arith)))
