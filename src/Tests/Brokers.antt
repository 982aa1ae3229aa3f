-- ===== src/Tests/Brokers.antt =====
-- A broker with one connection that is open, and one that is not yet.
use sdl_atf.Common.{◌≡◌, refl, pos, Bool, true, false, none, some, List, [], ◌∷◌, Bytes, codes}
use sdl_atf.Protocol.{success}
use sdl_atf.Broker.Table.{Endpoint, find}
use sdl_atf.Broker.Session.{Session}
use sdl_atf.Broker.Listener.{connect_error, get_session}
use sdl_atf.Broker.State.{Context, Broker, empty_broker, pending}
use sdl_atf.Broker.Calls.{open_endpoint, send_to, receive_from}
use sdl_atf.Broker.Receiving.{Received, SentNow, receive_from-Received, send_to-SentNow}
use sdl_atf.Broker.Connections.{fresh, open_endpoint_lem}
use sdl_atf.Broker.System.{Event, opens, closes, sends, receives, resolved, run}
use sdl_atf.Broker.System.WellFormed.{IsWellFormed, run-IsWellFormed}
use sdl_atf.Broker.Pending.{Holds}
use sdl_atf.Broker.System.Delivery.{early, early-Holds}
use sdl_atf.Broker.System.Elsewhere.{run-spares}
use sdl_atf.Tests.World.{wire}

abbrev Wire : Type 0
Wire = Bool × List Bytes

abbrev here : Endpoint
here = record { address = 1; port = 5555 }

abbrev there : Endpoint
there = record { address = 2; port = 5555 }

-- It is open, and has read two messages.
abbrev open_session : Session Wire
open_session = record {
  ws = (true, []);
  read_buffer = [];
  reading = true;
  msg_queue = codes "r1" ∷ codes "r2" ∷ [];
}

abbrev open_context : Context Wire
open_context = record {
  listener = record { socket_open = false; resolving = false; session = some open_session };
  threads = 2;
}

abbrev shut_context : Context Wire
shut_context = fresh (pos 2)

abbrev broker : Broker Wire
broker = record {
  listener_context = (here, open_context) ∷ (there, shut_context) ∷ [];
  msg_queue = (here, codes "p1" ∷ codes "p2" ∷ []) ∷ [];
  stopped = [];
}

receive_from-Received_example :
    Received wire broker here
      (true, [])
      (pending broker here)
      (codes "r1" ∷ codes "r2" ∷ [])
      (receive_from wire broker here)
unfolding find get_session
receive_from-Received_example = receive_from-Received wire broker here open_context refl refl

send_to-SentNow_example :
    SentNow wire broker here
      (get_session wire open_context.listener)
      (codes "m")
      (send_to wire broker here (codes "m"))
unfolding find get_session
send_to-SentNow_example = send_to-SentNow wire broker here open_context (codes "m") refl refl

here_known : find here broker.listener_context ≡ none → find here broker.msg_queue ≡ none
unfolding find
here_known e = cc

open_endpoint_lem_example :
    ((open_endpoint wire broker here (pos 2)).1 ≡ success)
    × (find here (open_endpoint wire broker here (pos 2)).0.listener_context ≡ some (fresh (pos 2)))
    × (pending (open_endpoint wire broker here (pos 2)).0 here ≡ [])
open_endpoint_lem_example = open_endpoint_lem wire broker here (pos 2) here_known

empty-IsWellFormed : IsWellFormed (empty_broker {W = Wire})
unfolding find
empty-IsWellFormed = record { known = λ j e. refl }

abbrev history : List (Event Wire)
history =
    opens here (pos 2)
    ∷ sends here (codes "m")
    ∷ receives here
    ∷ closes here
    ∷ sends there (codes "n")
    ∷ []

run-IsWellFormed_example : IsWellFormed (run wire empty_broker history)
run-IsWellFormed_example = run-IsWellFormed wire empty_broker history empty-IsWellFormed

run-spares_example :
    (find there (run wire broker (sends here (codes "m") ∷ closes here ∷ [])).listener_context
      ≡ find there broker.listener_context)
    × (find there (run wire broker (sends here (codes "m") ∷ closes here ∷ [])).msg_queue
        ≡ find there broker.msg_queue)
run-spares_example = run-spares wire broker there (sends here (codes "m") ∷ closes here ∷ []) refl

-- A Receive and a connection that fails before the connection is there, and a Send elsewhere.
abbrev waiting : List (Event Wire)
waiting =
    sends here (codes "a")
    ∷ receives here
    ∷ resolved here (codes "h") (connect_error false)
    ∷ sends there (codes "n")
    ∷ sends here (codes "b")
    ∷ []

abbrev elsewhere : List (Event Wire)
elsewhere = receives there ∷ []

early-Holds_example :
    Holds wire
      (run wire broker (early here (pos 2) waiting (codes "h") (false, []) elsewhere))
      here
      (true, [])
      (codes "a" ∷ codes "b" ∷ [])
      []
early-Holds_example =
    early-Holds wire broker here (pos 2) waiting (codes "h") (false, []) elsewhere refl refl
      here_known refl refl
