-- ===== src/Qt/Marshal.antt =====
-- The marshallers of marshal.cc, between the values of Lua and the C++ objects behind a `void *`. A
-- `QString` is its text in UTF-8.
use sdl_atf.Common.{
  ◌≡◌, refl, ℤ, Bool, true, Option, none, some, Bytes, before, before-lacks, lacks, to_signed,
}
use sdl_atf.Lua.{Value, boolean, integer, text, LuaApi, IsLuaApi}
use sdl_atf.Qt.Signature.{Marshaller, int, qint64, bool, qstring, qbytearray}

-- A C++ object that a marshaller has made.
pub data Variant : Type 0 where
  an_int a_qint64 : ℤ → Variant
  a_bool : Bool → Variant
  a_qstring a_qbytearray : Bytes → Variant

abbrev made {ℓ} : {A : Type ℓ} → (A → Variant) → Option A → Option Variant
made f none = none
made f (some a) = some (f a)

-- `Marshal`: `none` is NULL.
unfoldable pub marshal : LuaApi → Marshaller → Value → Option Variant
marshal l int v = made (λ i. an_int (to_signed 32 i)) (l.to_integerx v)
marshal l qint64 v = made (λ i. a_qint64 (to_signed 64 i)) (l.to_integerx v)
marshal l qstring v = made a_qstring (l.to_string v)
marshal l qbytearray v = made a_qbytearray (l.to_lstring v)
marshal l bool v = some (a_bool (l.to_boolean v))

-- `Unmarshal`: `none` where the pointer is null or to an object of another type, behind which nothing is
-- defined.
unfoldable pub unmarshal : Marshaller → Option Variant → Option Value
unmarshal int (some (an_int i)) = some (integer i)
unmarshal qint64 (some (a_qint64 i)) = some (integer i)
unmarshal qstring (some (a_qstring s)) = some (text (before 0 s))
unmarshal qbytearray (some (a_qbytearray s)) = some (text s)
unmarshal bool (some (a_bool b)) = some (boolean b)
unmarshal _ _ = none

-- The values that a marshaller keeps: an integer of its width, a text without NUL bytes for a QString,
-- any text for a QByteArray, and a Boolean.
abbrev pub Fits : Marshaller → Value → Type 0
Fits int v = (i : ℤ) × (v ≡ integer i) × (to_signed 32 i ≡ i)
Fits qint64 v = (i : ℤ) × (v ≡ integer i) × (to_signed 64 i ≡ i)
Fits qstring v = (s : Bytes) × (v ≡ text s) × (lacks 0 s ≡ true)
Fits qbytearray v = (s : Bytes) × (v ≡ text s)
Fits bool v = (b : Bool) × (v ≡ boolean b)

pub unmarshal-marshal :
    (l : LuaApi) (laws : IsLuaApi l) (m : Marshaller) (v : Value)
    → Fits m v
    → unmarshal m (marshal l m v) ≡ some v
unfolding unmarshal marshal
unmarshal-marshal l laws int v (i, e, small) = rw (e, laws.to_integerx_integer i, small) refl
unmarshal-marshal l laws qint64 v (i, e, small) = rw (e, laws.to_integerx_integer i, small) refl
unmarshal-marshal l laws qstring v (s, e, plain) =
    rw (e, laws.to_string_text s, before-lacks 0 s plain) (rw (before-lacks 0 s plain) refl)
unmarshal-marshal l laws qbytearray v (s, e) = rw (e, laws.to_lstring_text s) refl
unmarshal-marshal l laws bool v (b, e) = rw (e, laws.to_boolean_boolean b) refl
