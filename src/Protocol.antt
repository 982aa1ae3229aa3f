-- ===== src/Protocol.antt =====
-- src/remote_adapter/common: constants.h and custom_types.h, the vocabulary that the client and the
-- server of the remote adapter share, and `GetValue` with `IsAllValid`, by which the plugins of the
-- server read the parameters of a call.
pub mod Decimal
use sdl_atf.Protocol.Decimal.{decimal}
use sdl_atf.Common.{
  ℕ, ◌^◌, ◌<◌, ◌≡◌, ℤ, pos, negsuc, Bytes, codes, int_eq, if◌then◌else◌, Option, none, some,
}

-- Both `parameter_type` and `response_type`: a text and an `int`.
pub record ParameterType : Type 0 where
  pub first : Bytes
  pub second : ℤ

abbrev pub ResponseType : Type 0
ResponseType = ParameterType

abbrev pub pair : Bytes → ℤ → ParameterType
pair text code = record { first = text; second = code }

abbrev pub success : ℤ
success = pos 0

abbrev pub failed : ℤ
failed = negsuc 0

abbrev pub read_failure : ℤ
read_failure = negsuc 1

abbrev pub write_failure : ℤ
write_failure = negsuc 2

abbrev pub no_connection : ℤ
no_connection = negsuc 6

abbrev pub timeout_expired : ℤ
timeout_expired = negsuc 8

abbrev pub already_exists : ℤ
already_exists = negsuc 9

abbrev pub crashed : ℤ
crashed = negsuc 0

abbrev pub not_running : ℤ
not_running = pos 0

abbrev pub running : ℤ
running = pos 1

-- The enumeration `param_types::type`; NIL, DOUBLE and BOOLEAN are never asked for.
abbrev pub type_int : ℤ
type_int = pos 1

abbrev pub type_string : ℤ
type_string = pos 4

abbrev pub incorrect_number : Bytes
incorrect_number = codes "Incorrect number of parameters"

abbrev pub bad_type_value : Bytes
bad_type_value = codes "Bad type of the value"

-- `boost::lexical_cast`, a library: `none` is its exception `bad_lexical_cast`.
pub record LexicalCast : Type 0 where
  pub to_text : Bytes → Option Bytes
  pub to_int : Bytes → Option ℤ
  pub to_long : Bytes → Option ℤ
  pub to_size : Bytes → Option ℕ

-- `GetValue<nType>`: `none` where it returns false, and the value is not written.
unfoldable pub get_value {ℓ} : {A : Type ℓ} → ℤ → (Bytes → Option A) → ParameterType → Option A
get_value n_type cast p = if int_eq n_type p.second then cast p.first else none

-- The answer of a handler that was called with the wrong number of parameters, or, by `IsAllValid`,
-- with one that `GetValue` refused.
abbrev pub bad_number : ResponseType
bad_number = pair incorrect_number failed

abbrev pub bad_type : ResponseType
bad_type = pair bad_type_value failed

-- `std::string` to `std::string` is a copy, and a number is read back from its decimal digits.
pub record IsLexicalCast (c : LexicalCast) : Type 0 where
  pub text : (s : Bytes) → c.to_text s ≡ some s
  pub long : (n : ℕ) → n < 2 ^ 63 → c.to_long (decimal n) ≡ some (pos n)
  pub size : (n : ℕ) → n < 2 ^ 64 → c.to_size (decimal n) ≡ some n
  pub int : (n : ℕ) → n < 2 ^ 31 → c.to_int (decimal n) ≡ some (pos n)

-- Chains of `GetValue`: every one of them must succeed (`IsAllValid`).
infixl 5 ◌>>=◌
abbrev pub ◌>>=◌ {ℓ κ} : {A : Type ℓ} {B : Type κ} → Option A → (A → Option B) → Option B
none >>= f = none
some a >>= f = f a

-- The answer of a handler from the values of its parameters.
abbrev pub answer : Option ResponseType → ResponseType
answer none = bad_type
answer (some r) = r

-- The same where the call changes a state.
abbrev pub answer_in : {S : Type 0} → S → Option (S × ResponseType) → S × ResponseType
answer_in s none = (s, bad_type)
answer_in s (some r) = r
