-- ===== src/Client/Connection.antt =====
-- rpc_connection_impl.cc: `RpcConnectionImpl`, which turns the exceptions of `rpc::client` into
-- responses.
use sdl_atf.Common.{ℕ, Option, ℤ, Bool, List, Bytes}
use sdl_atf.Protocol.{ParameterType, ResponseType, pair, failed, timeout_expired}

-- The object of an `rpc::rpc_error`, by the types that a server packs into it.
pub data ErrorObject : Type 0 where
  string_int : Bytes → ℤ → ErrorObject
  int_string : ℤ → Bytes → ErrorObject
  string : Bytes → ErrorObject

-- What `rpc::client::call` does: it returns a value, or throws `rpc::rpc_error` or `rpc::timeout`,
-- both with their `what()`.
pub data Outcome : Type 0 where
  value : ResponseType → Outcome
  rpc_error : Bytes → ErrorObject → Outcome
  timeout : Bytes → Outcome

-- A result, or an exception that the caller does not catch.
pub data Result {ℓ} (A : Type ℓ) : Type ℓ where
  returned : A → Result A
  threw : Result A

-- `rpc::client`, a library, in a state `C` of the connection and of the server behind it.
pub record RpcClient (C : Type 0) : Type 0 where
  pub call : C → Bytes → List ParameterType → Outcome × C
  pub is_connected : C → Bool

-- `handle_rpc_error`: `as<std::pair<int, std::string>>` throws where the object is another.
unfoldable pub handle_rpc_error : ErrorObject → Result ℤ
handle_rpc_error (int_string code text) = returned failed
handle_rpc_error (string_int text code) = threw
handle_rpc_error (string text) = threw

abbrev error_pack : Bytes → Result ℤ → Result ResponseType
error_pack what (returned code) = returned (pair what code)
error_pack what threw = threw

-- The function-try-blocks of both `call`s.
unfoldable pub settle : Outcome → Result ResponseType
unfolding handle_rpc_error
settle (value r) = returned r
settle (rpc_error what e) = error_pack what (handle_rpc_error e)
settle (timeout what) = returned (pair what timeout_expired)

-- The rest of `rpc::client`: its constructor, which may throw, `set_timeout`, a call without an
-- argument, and its destructor.
pub record RpcLink (C : Type 0) : Type 0 where
  pub open_client : Bytes → ℕ → Option C
  pub set_timeout : C → ℕ → C
  pub call_plain : C → Bytes → Outcome × C
  pub close_client : C → C
