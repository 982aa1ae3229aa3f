-- ===== src/Broker/Listener.antt =====
-- `WebsocketListener`: it resolves the address, connects, and owns the session.
use sdl_atf.Common.{Bool, true, false, Option, none, some, Bytes, if◌then◌else◌}
use sdl_atf.Broker.Session.{Stream, Session, new_session, run_session, close_session}

-- `resolving` says that an `async_resolve` is under way, `socket_open` that `socket_` is open.
pub record Listener (W : Type 0) : Type 0 where
  pub socket_open : Bool
  pub resolving : Bool
  pub session : Option (Session W)

-- What `OnResolve` is called with, and what `connect` then does: the resolver fails, the connection
-- fails and leaves `socket_` open or not, or the socket is connected and becomes a stream.
pub data Resolved (W : Type 0) : Type 0 where
  resolve_error : Resolved W
  connect_error : Bool → Resolved W
  connected : W → Resolved W

abbrev pub new_listener : {W : Type 0} → Listener W
new_listener = record { socket_open = false; resolving = false; session = none }

module _ {W : Type 0} where
  unfoldable pub do_resolve : Listener W → Listener W
  do_resolve l = record l { resolving = true }

  unfoldable pub run_listener : Listener W → Listener W
  unfolding do_resolve
  run_listener l = if l.socket_open then l else do_resolve l

module _ {W : Type 0} (st : Stream W) where
  unfoldable pub stop_listener : Listener W → Listener W
  stop_listener l = record l {
    resolving = false;
    session = elim l.session [ none ↦ none | some s ↦ some (close_session st s) ];
  }

  -- `OnResolve`, with the text of the address for the handshake. A failed connection resolves anew.
  unfoldable pub on_resolve : Bytes → Listener W → Resolved W → Listener W
  unfolding do_resolve
  on_resolve host l resolve_error = record l { resolving = false }
  on_resolve host l (connect_error still_open) =
      do_resolve (record l { socket_open = still_open; resolving = false })
  on_resolve host l (connected w) = record {
    socket_open = false;
    resolving = false;
    session = some (run_session st (new_session w) host);
  }

  -- `GetSession` makes a session over a dummy socket where there is none.
  unfoldable pub get_session : Listener W → Session W
  get_session l = elim l.session [ none ↦ new_session st.unconnected | some s ↦ s ]
