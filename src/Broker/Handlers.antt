-- ===== src/Broker/Handlers.antt =====
-- `MessageBroker::Bind`: the handlers of open, close, send and receive, with `CheckError`.
use sdl_atf.Common.{
  ℤ, negsuc, Option, none, some, List, [], ◌∷◌, Bytes, codes, int_eq, if◌then◌else◌, pos,
}
use sdl_atf.Protocol.{
  ParameterType, ResponseType, pair, success, read_failure, write_failure, already_exists, type_int,
  type_string, LexicalCast, get_value, bad_number, bad_type, ◌>>=◌,
}
use sdl_atf.Broker.Session.{Stream}
use sdl_atf.Broker.State.{Broker, Addresses}
use sdl_atf.Broker.Calls.{open_connection, close_connection, send, receive}

-- What the RPC server sends back: the response; the object that `respond_error` was given, which
-- ends the handler; or, with `suppress_exceptions`, the text of an exception.
pub data Served : Type 0 where
  responded : ResponseType → Served
  error_object : Bytes → ℤ → Served
  exception : Served

abbrev pub path_not_found : ℤ
path_not_found = negsuc 3

abbrev pub close_failure : ℤ
close_failure = negsuc 4

-- `strerror` of the C library is a parameter.
unfoldable pub stringified_error : (ℤ → Bytes) → ℤ → Bytes
stringified_error strerror res =
    if int_eq res path_not_found
    then codes "Connection not found"
    else if int_eq res read_failure
    then codes "Reading failure"
    else if int_eq res write_failure
    then codes "Writing failure"
    else if int_eq res close_failure
    then codes "Closing failure"
    else if int_eq res already_exists
    then codes "Channel already exists"
    else strerror res

-- `CheckError(res)`, and behind it the response with `res`.
unfoldable pub check_error : (ℤ → Bytes) → ℤ → Served
unfolding stringified_error
check_error strerror res =
    if int_eq success res
    then responded (pair [] res)
    else error_object (stringified_error strerror res) res

module _ {W : Type 0} (cast : LexicalCast) (strerror : ℤ → Bytes) (st : Stream W) (ips : Addresses)
    (b : Broker W) where
  abbrev pub served_code : Option (Broker W × ℤ) → Broker W × Served
  served_code none = (b, exception)
  served_code (some (b', res)) = (b', check_error strerror res)

  abbrev pub served_result : Option (Broker W × Bytes × ℤ) → Broker W × Served
  served_result none = (b, exception)
  served_result (some (b', msg, res)) = (b', responded (pair msg res))

  abbrev or_bad_type : Option (Broker W × Served) → Broker W × Served
  or_bad_type none = (b, responded bad_type)
  or_bad_type (some r) = r

  -- `OpenConnection` starts two threads by default.
  unfoldable pub handle_open : List ParameterType → Broker W × Served
  unfolding check_error
  handle_open (p ∷ q ∷ []) = or_bad_type do
    address ← get_value type_string cast.to_text p
    port ← get_value type_int cast.to_int q
    some (served_code (open_connection st ips b address port (pos 2)))
  handle_open _ = (b, responded bad_number)

  unfoldable pub handle_close : List ParameterType → Broker W × Served
  unfolding check_error
  handle_close (p ∷ q ∷ []) = or_bad_type do
    address ← get_value type_string cast.to_text p
    port ← get_value type_int cast.to_int q
    some (served_code (close_connection st ips b address port))
  handle_close _ = (b, responded bad_number)

  unfoldable pub handle_send : List ParameterType → Broker W × Served
  handle_send (p ∷ q ∷ r ∷ []) = or_bad_type do
    address ← get_value type_string cast.to_text p
    port ← get_value type_int cast.to_int q
    message ← get_value type_string cast.to_text r
    some (served_result (send st ips b address port message))
  handle_send _ = (b, responded bad_number)

  unfoldable pub handle_receive : List ParameterType → Broker W × Served
  handle_receive (p ∷ q ∷ []) = or_bad_type do
    address ← get_value type_string cast.to_text p
    port ← get_value type_int cast.to_int q
    some (served_result (receive st ips b address port))
  handle_receive _ = (b, responded bad_number)
