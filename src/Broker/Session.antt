-- ===== src/Broker/Session.antt =====
-- `WebsocketSession`. The stream is `boost::beast::websocket::stream`, a library: the model has its
-- states `W` and the calls on it as a parameter.
use sdl_atf.Common.{ℤ, Bool, true, false, List, [], ◌∷◌, ◌++◌, Bytes, if◌then◌else◌}
use sdl_atf.Protocol.{success, write_failure}

-- The flag of `handshake` and `write` says that there was no error.
pub record Stream (W : Type 0) : Type 0 where
  pub is_open : W → Bool
  pub handshake : W → Bytes → W × Bool
  pub write : W → Bytes → W × Bool
  pub async_close : W → W
  -- a stream over a socket that was never connected
  pub unconnected : W

-- `reading` says that an `async_read` is under way.
pub record Session (W : Type 0) : Type 0 where
  pub ws : W
  pub read_buffer : Bytes
  pub reading : Bool
  pub msg_queue : List Bytes

module _ {W : Type 0} where
  abbrev pub new_session : W → Session W
  new_session w = record { ws = w; read_buffer = []; reading = false; msg_queue = [] }

  -- A failed handshake is logged, and reading is started all the same.
  unfoldable pub run_session : Stream W → Session W → Bytes → Session W
  run_session st s host = record s { ws = (st.handshake s.ws host).0; reading = true }

  -- Behind the check of the error code: what is in the buffer is one message.
  unfoldable pub take_message : Session W → Bytes → Session W
  take_message s [] = record s { read_buffer = []; reading = true }
  take_message s (c ∷ cs) = record s {
    read_buffer = [];
    reading = true;
    msg_queue = s.msg_queue ++ (c ∷ cs) ∷ [];
  }

  -- `OnRead`, when the read has put `bytes` into the buffer; `ec` says that it failed.
  unfoldable pub on_read : Session W → Bool → Bytes → Session W
  unfolding take_message
  on_read s ec bytes =
      if ec
      then record s { read_buffer = s.read_buffer ++ bytes; reading = false }
      else take_message s (s.read_buffer ++ bytes)

  unfoldable pub write_session : Stream W → Session W → Bytes → Session W × ℤ
  write_session st s message =
      let (w, ok) = st.write s.ws message in
      (record s { ws = w }, (if ok then success else write_failure))

  unfoldable pub close_session : Stream W → Session W → Session W
  close_session st s = record s { ws = st.async_close s.ws }

  unfoldable pub take_front : Session W → List Bytes → Session W × Bytes
  take_front s [] = (s, [])
  take_front s (m ∷ ms) = (record s { msg_queue = ms }, m)

  -- An empty queue gives the empty text.
  unfoldable pub get_message : Session W → Session W × Bytes
  unfolding take_front
  get_message s = take_front s s.msg_queue
