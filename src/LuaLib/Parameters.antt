-- ===== src/LuaLib/Parameters.antt =====
-- How the wrappers read Lua tables: `get_rpc_parameters` of remote_client_lua_wrapper.cc and
-- `build_TCPParams` of hmi_adapter_client_lua_wrapper.cc.
use sdl_atf.Common.{ℕ, zero, suc, Option, none, some, List, [], ◌∷◌, Bytes, codes, to_signed}
use sdl_atf.Lua.{Value, LuaApi, Called, raised, threw}
use sdl_atf.Protocol.{ParameterType, pair, type_int, type_string}
use sdl_atf.Protocol.Decimal.{to_string}

-- What reading a Lua value comes to: a value, an error of Lua, or a C++ exception.
pub data Reading {ℓ} (A : Type ℓ) : Type ℓ where
  got : A → Reading A
  lua_error : Reading A
  exception : Reading A

infixl 5 ◌>>=◌
abbrev pub ◌>>=◌ {ℓ κ} : {A : Type ℓ} {B : Type κ} → Reading A → (A → Reading B) → Reading B
got a >>= f = f a
lua_error >>= f = lua_error
exception >>= f = exception

-- What a function does behind a reading.
abbrev pub with_reading {ℓ} : {A : Type ℓ} {W : Type 0} → Reading A → (A → Called W) → Called W
with_reading (got a) f = f a
with_reading lua_error f = raised
with_reading exception f = threw

abbrev field_of : Option Value → Reading Value
field_of none = lua_error
field_of (some v) = got v

-- `std::string s = lua_tostring(...)` throws on NULL.
abbrev pub std_string : Option Bytes → Reading Bytes
std_string none = exception
std_string (some s) = got s

module _ (l : LuaApi) where
  -- The rounds of the loop from `i` on.
  unfoldable pub parameters_from : Value → ℕ → ℕ → Reading (List ParameterType)
  parameters_from table i zero = got []
  parameters_from table i (suc count) = do
    type_value ← field_of (l.get_field (l.raw_get table i) (codes "type"))
    value_field ← field_of (l.get_field (l.raw_get table i) (codes "value"))
    value ← std_string (l.to_string value_field)
    rest ← parameters_from table (suc i) count
    got (pair value (to_signed 32 (l.to_integer type_value)) ∷ rest)

  unfoldable pub get_rpc_parameters : Value → Reading (List ParameterType)
  unfolding parameters_from
  get_rpc_parameters table = parameters_from table 1 (l.raw_length table)

  unfoldable pub build_tcp_params : Value → Reading (List ParameterType)
  build_tcp_params table = do
    host_field ← field_of (l.get_field table (codes "host"))
    port ← field_of (l.get_field table (codes "port"))
    host ← std_string (l.to_string host_field)
    got (pair host type_string ∷ pair (to_string (to_signed 32 (l.to_integer port))) type_int ∷ [])
