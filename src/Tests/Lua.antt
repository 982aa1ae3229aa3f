-- ===== src/Tests/Lua.antt =====
-- A Lua whose tables are given, as a parameter of the bindings.
use sdl_atf.Common.{
  ℕ, ◌-◌, ◌≡◌, ◌≢◌, refl, ℤ, pos, Bool, true, false, Option, none, some, List, [], Bytes, bytes_eq,
  bytes_eq_iff, bytes_eq_refl, if◌then◌else◌, Bool-cases, inl, inr, before, to_signed, length,
  head_or, drop,
}
use sdl_atf.Lua.{Value, nil, boolean, integer, text, userdata, reference, LuaApi, IsLuaApi}

-- The elements and the fields of the table `n`.
pub record Tables : Type 0 where
  pub elements : ℕ → List Value
  pub field : ℕ → Bytes → Value

unfoldable pub object_of : Bytes → Value → Option ℕ
object_of c (userdata d o) = if bytes_eq c d then some o else none
object_of c _ = none

abbrev pub text_of : Value → Option Bytes
text_of (text s) = some (before 0 s)
text_of _ = none

abbrev pub all_of : Value → Option Bytes
all_of (text s) = some s
all_of _ = none

abbrev pub integer_of : Value → Option ℤ
integer_of (integer i) = some i
integer_of _ = none

abbrev pub integer_or_zero : Value → ℤ
integer_or_zero (integer i) = i
integer_or_zero _ = pos 0

abbrev pub int_of : Value → Option ℤ
int_of (integer i) = some (to_signed 32 i)
int_of _ = none

abbrev pub is_true : Value → Bool
is_true nil = false
is_true (boolean b) = b
is_true _ = true

abbrev pub elements_of : Tables → Value → List Value
elements_of t (reference n) = t.elements n
elements_of t _ = []

abbrev pub table_of : Value → Option Value
table_of (reference n) = some (reference n)
table_of _ = none

abbrev pub field_of : Tables → Value → Bytes → Option Value
field_of t (reference n) name = some (t.field n name)
field_of t _ name = none

abbrev pub plain_lua : Tables → LuaApi
plain_lua t = record {
  check_udata = object_of;
  check_string = text_of;
  check_lstring = all_of;
  check_integer = integer_of;
  to_integer = integer_or_zero;
  to_string = text_of;
  to_integerx = integer_of;
  to_lstring = all_of;
  to_boolean = is_true;
  number = int_of;
  check_table = table_of;
  raw_length = λ v. length (elements_of t v);
  raw_get = λ v i. head_or nil (drop (i - 1) (elements_of t v));
  get_field = field_of t;
}

object_of_same : (c : Bytes) (o : ℕ) → object_of c (userdata c o) ≡ some o
unfolding object_of
object_of_same c o = rw (bytes_eq_refl c)

object_of_other : (c d : Bytes) (o : ℕ) → c ≢ d → object_of c (userdata d o) ≡ none
unfolding object_of
object_of_other c d o ne = elim (Bool-cases (bytes_eq c d)) [
  | inl e ↦ absurd (ne ((bytes_eq_iff c d).0 e))
  | inr e ↦ rw e
]

pub plain_lua-IsLuaApi : (t : Tables) → IsLuaApi (plain_lua t)
plain_lua-IsLuaApi t = record {
  udata_same = object_of_same;
  udata_other = object_of_other;
  string_text = λ s. refl;
  lstring_text = λ s. refl;
  integer_integer = λ i. refl;
  to_integer_integer = λ i. refl;
  to_integerx_integer = λ i. refl;
  to_lstring_text = λ s. refl;
  to_boolean_boolean = λ b. refl;
  number_integer = λ i. refl;
  to_string_text = λ s. refl;
}
