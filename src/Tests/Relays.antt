-- ===== src/Tests/Relays.antt =====
-- An adapter over a broker in the same process, with a connection that is open.
use sdl_atf.Common.{
  refl, ap, ℤ, pos, Bool, true, false, Option, none, some, List, [], ◌∷◌, ◌++◌, Bytes, codes,
}
use sdl_atf.Protocol.{ParameterType}
use sdl_atf.Protocol.Decimal.{atoi}
use sdl_atf.Client.Connection.{
  RpcClient, Outcome, ErrorObject, value, timeout, rpc_error, string_int,
}
use sdl_atf.Broker.Table.{Endpoint, find}
use sdl_atf.Broker.Session.{Session}
use sdl_atf.Broker.Listener.{get_session}
use sdl_atf.Broker.State.{Addresses, Broker, Context, make_endpoint}
use sdl_atf.Broker.Handlers.{Served, responded, error_object, exception}
use sdl_atf.Broker.Binding.{Handler, handler_of}
use sdl_atf.Broker.Reading.{Reads}
use sdl_atf.Relay.{
  Relays, Happening, arrives, listens, sends, texts, texts_in, arrived, happens, live, Delivers,
}
use sdl_atf.Relay.Order.{happens-Delivers}
use sdl_atf.Tests.World.{plain_cast, plain_cast-IsLexicalCast, wire}

abbrev Wire : Type 0
Wire = Bool × List Bytes

-- Every text is the address 1.
abbrev any_address : Addresses
any_address = record { make_address = λ text. some 1; to_text = λ ip. [] }

abbrev no_message : ℤ → Bytes
no_message code = []

abbrev bound : Bytes → Option (Handler Wire)
bound = handler_of plain_cast no_message wire any_address

abbrev outcome : Served → Outcome
outcome (responded r) = value r
outcome (error_object text code) = rpc_error (codes "error") (string_int text code)
outcome exception = rpc_error (codes "error") (ErrorObject.string [])

abbrev called : Broker Wire → List ParameterType → Option (Handler Wire) → Outcome × Broker Wire
called b ps none = (timeout [], b)
called b ps (some h) = (outcome (h b ps).1, (h b ps).0)

abbrev direct : RpcClient (Broker Wire)
direct = record { call = λ b name ps. called b ps (bound name); is_connected = λ b. true }

direct_link : Relays direct bound
direct_link = record {
  broker = λ b. b;
  with_broker = λ b b'. b';
  broker_with = λ b b'. refl;
  connected = λ b. refl;
  responses = λ b name ps h r e answered. rw e (ap outcome answered);
  brokers = λ b name ps h r e answered. rw e refl;
}

abbrev here : Endpoint
here = record { address = 1; port = 80 }

abbrev open_session : Session Wire
open_session = record {
  ws = (true, []);
  read_buffer = [];
  reading = true;
  msg_queue = codes "first" ∷ [];
}

abbrev open_context : Context Wire
open_context = record {
  listener = record { socket_open = true; resolving = false; session = some open_session };
  threads = 2;
}

abbrev open_broker : Broker Wire
open_broker = record { listener_context = (here, open_context) ∷ []; msg_queue = []; stopped = [] }

open_broker-Reads : Reads wire open_broker here (codes "first" ∷ [])
unfolding find get_session
open_broker-Reads = record {
  context = open_context;
  found = refl;
  owned = refl;
  queued = refl;
  buffered = refl;
  reading = refl;
}

abbrev afternoon : List Happening
afternoon = arrives (codes "second") ∷ listens ∷ sends (codes "m") ∷ listens ∷ []

happens-Delivers_example :
    Delivers wire direct_link.broker here
      (live (codes "1.1.1.1") (codes "80") true)
      (happens plain_cast no_message wire any_address direct direct_link here
        (live (codes "1.1.1.1") (codes "80") true open_broker [])
        afternoon)
      ((texts [] ++ texts_in (codes "first" ∷ [])) ++ arrived afternoon)
unfolding make_endpoint atoi direct_link
happens-Delivers_example =
    happens-Delivers plain_cast plain_cast-IsLexicalCast no_message wire any_address direct
      direct_link here (codes "1.1.1.1") (codes "80") (pos 80) refl refl true (λ w m h. refl)
      open_broker [] (codes "first" ∷ []) afternoon open_broker-Reads
