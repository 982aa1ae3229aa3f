-- ===== src/Broker/State.antt =====
-- The state of `MessageBroker`, and MakeEndpoint, GetContext and MakeContext.
use sdl_atf.Common.{ℕ, ℤ, Option, none, some, List, [], Bytes, to_unsigned}
use sdl_atf.Broker.Table.{Endpoint, find, put}
use sdl_atf.Broker.Listener.{Listener}

-- `ListenerContext`: the listener, and the number of threads in `thread_list_`.
pub record Context (W : Type 0) : Type 0 where
  pub listener : Listener W
  pub threads : ℕ

-- `stopped` holds the listeners of closed connections, which the program no longer refers to.
pub record Broker (W : Type 0) : Type 0 where
  pub listener_context : List (Endpoint × Context W)
  pub msg_queue : List (Endpoint × List Bytes)
  pub stopped : List (Listener W)

-- `boost::asio::ip`, a library: `make_address` throws (`none`) where the text is no address.
pub record Addresses : Type 0 where
  pub make_address : Bytes → Option ℕ
  pub to_text : ℕ → Bytes

abbrev pub at_port : ℤ → Option ℕ → Option Endpoint
at_port port none = none
at_port port (some ip) = some (record { address = ip; port = to_unsigned 16 port })

-- The port is cast to `unsigned short`.
unfoldable pub make_endpoint : Addresses → Bytes → ℤ → Option Endpoint
make_endpoint ips address port = at_port port (ips.make_address address)

module _ {W : Type 0} where
  abbrev pub empty_broker : Broker W
  empty_broker = record { listener_context = []; msg_queue = []; stopped = [] }

  -- `GetContext`, behind `MakeEndpoint`.
  abbrev pub get_context : Broker W → Endpoint → Option (Context W)
  get_context b e = find e b.listener_context

  abbrev pub set_listener : Broker W → Endpoint → Context W → Listener W → Broker W
  set_listener b e c l = record b {
    listener_context = put e (record c { listener = l }) b.listener_context;
  }

  -- The queue `msg_queue_[endpoint]`, which `[]` makes where there is none.
  abbrev pub pending : Broker W → Endpoint → List Bytes
  pending b e = elim (find e b.msg_queue) [ none ↦ [] | some q ↦ q ]

  abbrev pub set_pending : Broker W → Endpoint → List Bytes → Broker W
  set_pending b e q = record b { msg_queue = put e q b.msg_queue }
