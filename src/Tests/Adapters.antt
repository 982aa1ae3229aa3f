-- ===== src/Tests/Adapters.antt =====
-- An adapter whose remote side answers as a script says, and a client of a broker.
use sdl_atf.Common.{
  ◌≡◌, refl, ap, ℤ, true, false, not, ◌&&◌, some, List, [], ◌∷◌, Bytes, codes, if◌then◌else◌,
}
use sdl_atf.Protocol.{
  ParameterType, ResponseType, pair, success, no_connection, type_int, type_string,
}
use sdl_atf.Client.Connection.{RpcClient, Outcome, ErrorObject, value, rpc_error, string_int, threw}
use sdl_atf.Client.Calls.{content_call}
use sdl_atf.Broker.State.{Addresses, make_endpoint, empty_broker}
use sdl_atf.Broker.Table.{find}
use sdl_atf.Broker.Handlers.{Served, responded, error_object, exception, handle_close}
use sdl_atf.Remote.{Carries, close_unknown}
use sdl_atf.Hmi.Adapter.{Adapter, new_adapter}
use sdl_atf.Hmi.Actions.{Action, connects, listens, sends, acts}
use sdl_atf.Hmi.Signals.{disconnections, acts-disconnections}
use sdl_atf.Tests.World.{plain_cast, wire, scripted}

abbrev ok : ResponseType
ok = pair [] success

abbrev lost : ResponseType
lost = pair [] no_connection

abbrev answers : List Outcome
answers = value ok ∷ value lost ∷ value ok ∷ []

abbrev life : List Action
life = connects true ∷ listens ∷ connects true ∷ sends (codes "m") ∷ []

acts-disconnections_example :
    disconnections (acts scripted (new_adapter answers []) life).emitted ≡ (
      if (acts scripted (new_adapter answers []) life).listener
        && not (acts scripted (new_adapter answers []) life).is_connected
      then 1
      else 0)
acts-disconnections_example = acts-disconnections scripted answers [] life refl

-- It was connected, and has lost the connection; the remote side would open it again.
abbrev lost_adapter : Adapter (List Outcome)
lost_adapter = record {
  is_connected = false;
  connection_parameters = [];
  listener = true;
  listening = true;
  emitted = [];
  remote = value ok ∷ [];
}

-- Every text is the address 1.
abbrev one_address : Addresses
one_address = record { make_address = λ text. some 1; to_text = λ ip. [] }

abbrev carried : Served → Outcome
carried (responded r) = value r
carried (error_object text code) = rpc_error (codes "error") (string_int text code)
carried exception = rpc_error (codes "error") (ErrorObject.string [])

abbrev no_text : ℤ → Bytes
no_text code = []

abbrev closing : List ParameterType → Served
closing ps = (handle_close plain_cast no_text wire one_address empty_broker ps).1

abbrev to_broker : RpcClient (Unit {0})
to_broker = record { call = λ c name ps. (carried (closing ps), c); is_connected = λ c. true }

to_broker-Carries : Carries to_broker (codes "close") closing
to_broker-Carries = record {
  connected = λ c. refl;
  responses = λ c ps r e. ap carried e;
  what = codes "error";
  errors = λ c ps text code e. ap carried e;
}

close_unknown_example :
    (content_call to_broker tt
      (codes "close")
      (pair (codes "1.1.1.1") type_string ∷ pair (codes "80") type_int ∷ [])).0
    ≡ threw
unfolding make_endpoint find
close_unknown_example =
    close_unknown plain_cast no_text wire one_address empty_broker to_broker to_broker-Carries tt
      (codes "1.1.1.1") (codes "80") (codes "1.1.1.1") _ _ refl refl refl refl
