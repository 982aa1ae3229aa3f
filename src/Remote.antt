-- ===== src/Remote.antt =====
-- The client's calls against the broker's handlers, over the rpc library.
use sdl_atf.Common.{◌≡◌, ap, ℤ, true, none, some, List, [], ◌∷◌, Bytes, codes}
use sdl_atf.Protocol.{
  ParameterType, ResponseType, pair, no_connection, type_int, type_string, LexicalCast, get_value,
}
use sdl_atf.Client.Connection.{RpcClient, string_int, rpc_error, value, threw, settle}
use sdl_atf.Client.Calls.{content_call}
use sdl_atf.Broker.Table.{Endpoint, find}
use sdl_atf.Broker.Session.{Stream}
use sdl_atf.Broker.State.{Broker, Addresses, make_endpoint}
use sdl_atf.Broker.Calls.{close_endpoint, close_connection}
use sdl_atf.Broker.Handlers.{
  Served, responded, error_object, stringified_error, check_error, handle_close,
}

-- The connection stands, and the library carries a call of `rpc_name` to a handler: a response comes
-- back as a value, and the object given to `respond_error` as an `rpc::rpc_error` with some `what()`.
pub record Carries {C : Type 0} (rpc : RpcClient C) (rpc_name : Bytes)
    (handler : List ParameterType → Served) : Type 0 where
  pub connected : (c : C) → rpc.is_connected c ≡ true
  pub responses :
      (c : C) (ps : List ParameterType) (r : ResponseType)
      → handler ps ≡ responded r
      → (rpc.call c rpc_name ps).0 ≡ value r
  pub what : Bytes
  pub errors :
      (c : C) (ps : List ParameterType) (text : Bytes) (code : ℤ)
      → handler ps ≡ error_object text code
      → (rpc.call c rpc_name ps).0 ≡ rpc_error what (string_int text code)

module _ {W C : Type 0} (cast : LexicalCast) (strerror : ℤ → Bytes) (st : Stream W)
    (ips : Addresses) (b : Broker W) (rpc : RpcClient C)
    (link : Carries rpc (codes "close") (λ ps. (handle_close cast strerror st ips b ps).1)) where
  handle_close_unknown :
      (address port_text ip : Bytes) (port : ℤ) (e : Endpoint)
      → cast.to_text address ≡ some ip
      → cast.to_int port_text ≡ some port
      → make_endpoint ips ip port ≡ some e
      → find e b.listener_context ≡ none
      → (handle_close cast strerror st ips b
          (pair address type_string ∷ pair port_text type_int ∷ [])).1
        ≡ error_object (stringified_error strerror no_connection) no_connection
  unfolding handle_close get_value close_connection close_endpoint check_error
  handle_close_unknown address port_text ip port e text number made absent =
      rw (text, number, made) (rw (absent, close_endpoint))

  -- Closing a connection that the broker does not have raises an exception in the client, which it
  -- does not catch, where the error code NO_CONNECTION was meant to be returned: the client reads the
  -- error object as a number and a text, and the broker packs a text and a number.
  pub close_unknown :
      (c : C) (address port_text ip : Bytes) (port : ℤ) (e : Endpoint)
      → cast.to_text address ≡ some ip
      → cast.to_int port_text ≡ some port
      → make_endpoint ips ip port ≡ some e
      → find e b.listener_context ≡ none
      → (content_call rpc c
          (codes "close")
          (pair address type_string ∷ pair port_text type_int ∷ [])).0
        ≡ threw
  unfolding content_call settle
  close_unknown c address port_text ip port e text number made absent =
      let ps = pair address type_string ∷ pair port_text type_int ∷ [] in
      let answer =
        link.errors c ps _ _
          (handle_close_unknown address port_text ip port e text number made absent) in
      rw (link.connected c, content_call) (ap settle answer)
