-- ===== src/Relay.antt =====
-- An adapter end to end: `HmiAdapterClient` over the rpc library against the handlers that
-- `MessageBroker::Bind` gives the server, with the messages that arrive at the websocket session.
pub mod Order
use sdl_atf.Common.{
  Bool, ◌≡◌, ℤ, true, false, Option, none, some, List, [], ◌∷◌, ◌++◌, Bytes, before,
}
use sdl_atf.Protocol.{ParameterType, ResponseType, pair, type_int, type_string, LexicalCast}
use sdl_atf.Client.Connection.{RpcClient, value}
use sdl_atf.Broker.Table.{Endpoint}
use sdl_atf.Broker.Session.{Stream}
use sdl_atf.Broker.State.{Broker, Addresses}
use sdl_atf.Broker.Handlers.{responded}
use sdl_atf.Broker.Binding.{Handler, handler_of}
use sdl_atf.Broker.Reading.{Reads}
use sdl_atf.Broker.System.{step, reads}
use sdl_atf.Hmi.Adapter.{Adapter, Signal, text_message_received, send, listen}

-- The connection stands, and the library carries a call to the handler that the server has for its
-- name: a response comes back as a value, and the broker is as the handler left it. `with_broker` is a
-- change of the broker in which the client has no part.
pub record Relays {W C : Type 0} (rpc : RpcClient C) (handlers : Bytes → Option (Handler W))
    : Type 0 where
  pub broker : C → Broker W
  pub with_broker : C → Broker W → C
  pub broker_with : (c : C) (b : Broker W) → broker (with_broker c b) ≡ b
  pub connected : (c : C) → rpc.is_connected c ≡ true
  pub responses :
      (c : C) (name : Bytes) (ps : List ParameterType) (h : Handler W) (r : ResponseType)
      → handlers name ≡ some h
      → (h (broker c) ps).1 ≡ responded r
      → (rpc.call c name ps).0 ≡ value r
  pub brokers :
      (c : C) (name : Bytes) (ps : List ParameterType) (h : Handler W) (r : ResponseType)
      → handlers name ≡ some h
      → (h (broker c) ps).1 ≡ responded r
      → broker (rpc.call c name ps).1 ≡ (h (broker c) ps).0

-- A message arrives at the session of the endpoint, the listener thread of the adapter does a round, or
-- its owner sends a message.
pub data Happening : Type 0 where
  arrives : Bytes → Happening
  listens : Happening
  sends : Bytes → Happening

-- The parameters of an adapter for an address and a port.
abbrev pub addressed : Bytes → Bytes → List ParameterType
addressed host port = pair host type_string ∷ pair port type_int ∷ []

-- The texts that an adapter has emitted.
abbrev text_of : Signal → List Bytes
text_of (text_message_received s) = s ∷ []
text_of _ = []

abbrev pub texts : List Signal → List Bytes
texts [] = []
texts (s ∷ ss) = text_of s ++ texts ss

-- The texts of the messages that arrive; an empty message is none.
abbrev pub text_in : Bytes → List Bytes
text_in [] = []
text_in (c ∷ cs) = before 0 (c ∷ cs) ∷ []

abbrev pub texts_in : List Bytes → List Bytes
texts_in [] = []
texts_in (m ∷ ms) = text_in m ++ texts_in ms

abbrev arrived_in : Happening → List Bytes
arrived_in (arrives m) = text_in m
arrived_in _ = []

abbrev pub arrived : List Happening → List Bytes
arrived [] = []
arrived (h ∷ hs) = arrived_in h ++ arrived hs

-- A connected adapter for an address and a port, whose listener thread runs.
abbrev pub live : {C : Type 0} → Bytes → Bytes → Bool → C → List Signal → Adapter C
live host port listener c emitted = record {
  is_connected = true;
  connection_parameters = addressed host port;
  listener = listener;
  listening = true;
  emitted = emitted;
  remote = c;
}

-- An adapter of the form `running`, with a session that reads, and `all` the texts that it has
-- emitted, with those of the messages in the session behind them.
pub record Delivers {W C : Type 0} (st : Stream W) (broker : C → Broker W) (e : Endpoint)
    (running : C → List Signal → Adapter C) (a : Adapter C) (all : List Bytes) : Type 0 where
  pub remote : C
  pub emitted : List Signal
  pub queue : List Bytes
  pub shape : a ≡ running remote emitted
  pub session : Reads st (broker remote) e queue
  pub in_order : texts emitted ++ texts_in queue ≡ all

module _ {W C : Type 0} (cast : LexicalCast) (strerror : ℤ → Bytes) (st : Stream W)
    (ips : Addresses) (rpc : RpcClient C) (link : Relays rpc (handler_of cast strerror st ips))
    (e : Endpoint) where
  unfoldable pub happen : Adapter C → Happening → Adapter C
  happen a (arrives m) = record a {
    remote = link.with_broker a.remote (step st (link.broker a.remote) (reads e false m));
  }
  happen a listens = listen rpc a
  happen a (sends m) = (send rpc a m).0

  unfoldable pub happens : Adapter C → List Happening → Adapter C
  unfolding happen
  happens a [] = a
  happens a (h ∷ hs) = happens (happen a h) hs
