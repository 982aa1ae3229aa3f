-- ===== src/Lua.antt =====
-- What the bindings use of Lua: its values, the stack of a C function, and the functions of its API
-- that read a value, which are a parameter.
pub mod Heap
use sdl_atf.Common.{
  before, refl, ◌+◌, ℕ, ◌+◌, ◌-◌, ◌≡◌, ◌≢◌, ℤ, Option, none, some, List, [], ◌∷◌, ◌++◌, Bytes,
  to_signed, Bool, true, false, length, drop,
}

-- A userdata has the name of its metatable and the object that it points to; `reference` is a table or
-- a function.
pub data Value : Type 0 where
  nil : Value
  boolean : Bool → Value
  integer : ℤ → Value
  text : Bytes → Value
  userdata : Bytes → ℕ → Value
  reference : ℕ → Value

-- The functions of the API: `none` is the error that they raise, or NULL for `to_string`, whose text is
-- read as a C string.
pub record LuaApi : Type 0 where
  pub check_udata : Bytes → Value → Option ℕ
  -- A C string, which ends before the first NUL byte; `check_lstring` gives the length as well.
  pub check_string : Value → Option Bytes
  pub check_lstring : Value → Option Bytes
  pub check_integer : Value → Option ℤ
  pub to_integer : Value → ℤ
  pub to_string : Value → Option Bytes
  -- `lua_tointegerx` with its flag, and `lua_tolstring`, `none` for NULL.
  pub to_integerx : Value → Option ℤ
  pub to_lstring : Value → Option Bytes
  pub to_boolean : Value → Bool
  -- A number, or a text that is one, converted to `int`.
  pub number : Value → Option ℤ
  -- `luaL_checktype(L, n, LUA_TTABLE)` and `lua_rawlen` and `lua_rawgeti` on a table
  pub check_table : Value → Option Value
  pub raw_length : Value → ℕ
  pub raw_get : Value → ℕ → Value
  pub get_field : Value → Bytes → Option Value

-- What its manual says of them.
pub record IsLuaApi (l : LuaApi) : Type 0 where
  pub udata_same : (c : Bytes) (o : ℕ) → l.check_udata c (userdata c o) ≡ some o
  pub udata_other : (c d : Bytes) (o : ℕ) → c ≢ d → l.check_udata c (userdata d o) ≡ none
  pub string_text : (s : Bytes) → l.check_string (text s) ≡ some (before 0 s)
  pub lstring_text : (s : Bytes) → l.check_lstring (text s) ≡ some s
  pub integer_integer : (i : ℤ) → l.check_integer (integer i) ≡ some i
  pub to_integer_integer : (i : ℤ) → l.to_integer (integer i) ≡ i
  pub to_integerx_integer : (i : ℤ) → l.to_integerx (integer i) ≡ some i
  pub to_lstring_text : (s : Bytes) → l.to_lstring (text s) ≡ some s
  pub to_boolean_boolean : (b : Bool) → l.to_boolean (boolean b) ≡ b
  pub number_integer : (i : ℤ) → l.number (integer i) ≡ some (to_signed 32 i)
  pub to_string_text : (s : Bytes) → l.to_string (text s) ≡ some (before 0 s)

-- What a C function that Lua calls does: it raises an error before it has done anything, or, as
-- `failed`, in a new state; it returns; or it is still in a loop.
pub data Called (W : Type 0) : Type 0 where
  raised : Called W
  failed : W → Called W
  returned : W → List Value → Called W
  running : Called W
  -- An assertion fails or a null pointer is read, which ends the program.
  aborted : Called W
  -- A C++ exception leaves it through Lua, behind which nothing is defined.
  threw : Called W

-- A C function of a binding, on the state of the library and the stack with the arguments.
abbrev pub Function : Type 0 → Type 0
Function W = W → List Value → Called W

-- A check that raises an error, and what comes behind it.
infixl 5 ◌>>=◌
abbrev pub ◌>>=◌ {ℓ} : {A : Type ℓ} {W : Type 0} → Option A → (A → Called W) → Called W
none >>= f = raised
some a >>= f = f a

abbrev pub is_nil : Value → Bool
is_nil nil = true
is_nil _ = false

abbrev first_or_nil : List Value → Value
first_or_nil [] = nil
first_or_nil (v ∷ vs) = v

-- The value at the index `n` of the stack, from 1 on; nil where there is none.
abbrev pub arg : ℕ → List Value → Value
arg n stack = first_or_nil (drop (n - 1) stack)

-- The value at the index `- n`, counted from the top.
abbrev pub from_top : ℕ → List Value → Value
from_top n stack = arg (length stack + 1 - n) stack

abbrev pub push : Value → List Value → List Value
push v stack = stack ++ v ∷ []

-- A function that ends with `return n` gives the caller the `n` values at the top of its stack.
abbrev pub give : {W : Type 0} → W → ℕ → List Value → Called W
give w n stack = returned w (drop (length stack - n) stack)

-- A metatable as `luaL_newmetatable` and `luaL_setfuncs` fill it: its name, the functions that an
-- object finds by its `__index`, and those for events, as `__gc` for the garbage collector.
pub record Metatable (W : Type 0) : Type 0 where
  pub class : Bytes
  pub index : List (Bytes × Function W)
  pub events : List (Bytes × Function W)

-- Every function of the list raises an error, and does nothing else, unless its first argument is an
-- object of the class.
abbrev pub AllGuarded : {W : Type 0} → LuaApi → Bytes → List (Bytes × Function W) → Type 0
AllGuarded l class [] = Unit
AllGuarded {W} l class ((name, f) ∷ fs) =
    ((w : W) (stack : List Value) → l.check_udata class (arg 1 stack) ≡ none → f w stack ≡ raised)
    × AllGuarded l class fs

abbrev pub AllTyped : {W : Type 0} → LuaApi → List (Metatable W) → Type 0
AllTyped l [] = Unit
AllTyped l (m ∷ ms) = AllGuarded l m.class (m.events ++ m.index) × AllTyped l ms

-- A function that begins with a check raises where the check fails, whatever comes behind it.
pub raises :
    {W : Type 0} (check : List Value → Option ℕ) (body : W → List Value → ℕ → Called W) (w : W)
    (stack : List Value)
    → check stack ≡ none
    → (check stack >>= body w stack) ≡ raised
raises check body w stack h = rw h refl

-- A proof for each function of a list.
infixr 5 ◌&◌
abbrev pub ◌&◌ : {A B : Type 0} → A → B → A × B
a & b = (a, b)
