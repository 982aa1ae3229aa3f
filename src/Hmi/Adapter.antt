-- ===== src/Hmi/Adapter.antt =====
-- `HmiAdapterClient` over the connection of its `RemoteClient`, in a state `C`.
use sdl_atf.Common.{
  ℕ, ℤ, Bool, true, false, List, [], ◌∷◌, ◌++◌, Bytes, codes, length, before, int_eq, if◌then◌else◌,
  ◌||◌,
}
use sdl_atf.Protocol.{ParameterType, ResponseType, pair, success, no_connection, type_string}
use sdl_atf.Client.Connection.{RpcClient, Result, returned, threw}
use sdl_atf.Client.Calls.{content_call}

-- The Qt signals; a text that was received goes into a `QString` up to its first NUL byte.
pub data Signal : Type 0 where
  text_message_received : Bytes → Signal
  bytes_written : ℕ → Signal
  connected disconnected : Signal

-- `listener` says that `listener_ptr_` holds a thread, `listening` that the thread has not ended.
-- `emitted` are the signals so far.
pub record Adapter (C : Type 0) : Type 0 where
  pub is_connected : Bool
  pub connection_parameters : List ParameterType
  pub listener : Bool
  pub listening : Bool
  pub emitted : List Signal
  pub remote : C

abbrev pub emit : {C : Type 0} → Adapter C → Signal → Adapter C
emit a signal = record a { emitted = a.emitted ++ signal ∷ [] }

abbrev pub new_adapter : {C : Type 0} → C → List ParameterType → Adapter C
new_adapter c parameters = record {
  is_connected = false;
  connection_parameters = parameters;
  listener = false;
  listening = false;
  emitted = [];
  remote = c;
}

-- `if (result.first.length()) emit textMessageReceived(...)`
unfoldable pub deliver : {C : Type 0} → Adapter C → Bytes → Adapter C
deliver a [] = a
deliver a (c ∷ cs) = emit a (text_message_received (before 0 (c ∷ cs)))

unfoldable pub connection_lost : {C : Type 0} → Adapter C → Adapter C
connection_lost a =
    if a.is_connected then emit (record a { is_connected = false }) disconnected else a

module _ {C : Type 0} (rpc : RpcClient C) where
  -- `content_call` on the remote client; the state of the connection moves on.
  abbrev pub remote_call : Adapter C → Bytes → List ParameterType → Adapter C × Result ResponseType
  remote_call a name parameters =
      let (r, c) = content_call rpc a.remote name parameters in (record a { remote = c }, r)

  -- With the response to `open`: for the first connection, and for any other. `starts` says that
  -- `new std::thread` gives a thread and no slot of `connected` throws; what is thrown there is caught
  -- with `is_connected_` set and `listener_ptr_` null.
  abbrev pub opened : Bool → Bool → Adapter C → ResponseType → Adapter C
  opened starts again a result =
      if int_eq success result.second
      then (if again
          then emit a connected
          else record (emit (record a { is_connected = true }) connected) {
            listener = a.listener || starts;
            listening = a.listening || starts;
          })
      else a

  abbrev pub open_result :
      Bool → Bool → Adapter C × Result ResponseType → Adapter C × Result (Unit {0})
  open_result starts again (a, threw) = (a, threw)
  open_result starts again (a, returned result) = (opened starts again a result, returned tt)

  -- `connect`
  unfoldable pub connect : Bool → Adapter C → Adapter C × Result (Unit {0})
  connect starts a =
      open_result starts (a.is_connected || a.listener)
        (remote_call a (codes "open") a.connection_parameters)

  abbrev pub sent : Bytes → Adapter C × Result ResponseType → Adapter C × Result ℤ
  sent message (a, threw) = (a, threw)
  sent message (a, returned result) = (
    if int_eq success result.second
        then deliver (emit a (bytes_written (length message))) result.first
        else if int_eq no_connection result.second
        then connection_lost a
        else a,
    returned result.second,
  )

  -- `send`
  unfoldable pub send : Adapter C → Bytes → Adapter C × Result ℤ
  unfolding deliver connection_lost
  send a message =
      let r =
        sent message (
          remote_call a (codes "send")
            (a.connection_parameters ++ pair message type_string ∷ [])) in
      if a.is_connected then r else (a, returned no_connection)

  abbrev pub received : Adapter C × Result ResponseType → Adapter C × Result ResponseType
  received (a, threw) = (a, threw)
  received (a, returned result) = (
    if int_eq success result.second
        then deliver a result.first
        else if int_eq no_connection result.second
        then connection_lost a
        else a,
    returned result,
  )

  -- `receive`
  unfoldable pub receive : Adapter C → Adapter C × Result ResponseType
  unfolding deliver connection_lost
  receive a =
      let r = received (remote_call a (codes "receive") a.connection_parameters) in
      if a.is_connected then r else (a, returned (pair [] no_connection))

  abbrev pub after_receive : Adapter C × Result ResponseType → Adapter C
  after_receive (a, threw) = record a { listening = false }
  after_receive (a, returned result) = a

  -- A round of the listener thread, which an exception ends.
  unfoldable pub listen : Adapter C → Adapter C
  unfolding receive
  listen a = if a.listening then after_receive (receive a) else a

  -- The destructor: the thread is joined, and the connection closed.
  unfoldable pub destroy : Adapter C → C
  destroy a =
      if a.is_connected
      then (remote_call a (codes "close") a.connection_parameters).0.remote
      else a.remote
