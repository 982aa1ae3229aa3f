-- ===== src/Broker/Destroying.antt =====
-- The destructor of `MessageBroker`.
use sdl_atf.Common.{
  ℕ, ◌≡◌, ◌<◌, ◌^◌, refl, ap, ℤ, pos, Bool, true, false, Option, none, some, List, [], ◌∷◌, arith,
  if◌then◌else◌,
}
use sdl_atf.Broker.Table.{Endpoint, find, find-erase, ep_eq_refl}
use sdl_atf.Broker.Session.{Stream}
use sdl_atf.Broker.State.{Context, Broker, Addresses, make_endpoint}
use sdl_atf.Broker.Calls.{close_connection, close_endpoint}

abbrev pub is_empty : {W : Type 0} → List (Endpoint × Context W) → Bool
is_empty [] = true
is_empty (x ∷ xs) = false

module _ {W : Type 0} (st : Stream W) (ips : Addresses) where
  -- Behind CloseConnection for the entry at the iterator: to go on from an entry that is erased is
  -- undefined (`none`).
  abbrev go_on : Endpoint → (Broker W → Option (Broker W)) → Broker W → Option (Broker W)
  go_on e rest b = elim (find e b.listener_context) [ none ↦ none | some c ↦ rest b ]

  abbrev after_close :
      Endpoint → (Broker W → Option (Broker W)) → Option (Broker W × ℤ) → Option (Broker W)
  after_close e rest none = none
  after_close e rest (some r) = go_on e rest r.0

  -- The loop over the entries that are still there. An exception leaves a destructor, which ends the
  -- program (`none` as well).
  unfoldable pub close_from : List (Endpoint × Context W) → Broker W → Option (Broker W)
  close_from [] b = some b
  close_from ((e, c) ∷ rest) b =
      let others = close_from rest in
      elim (find e b.listener_context) [
        | none ↦ others b
        | some here ↦
            after_close e others (close_connection st ips b (ips.to_text e.address) (pos e.port))
      ]

  -- `~MessageBroker`
  unfoldable pub destroy_broker : Broker W → Option (Broker W)
  unfolding close_from
  destroy_broker b = close_from b.listener_context b

  -- The text of each address is read back as the address, and each port has 16 bits.
  abbrev pub AllNamed : List (Endpoint × Context W) → Type 0
  AllNamed [] = Unit
  AllNamed ((e, c) ∷ rest) =
      (ips.make_address (ips.to_text e.address) ≡ some e.address)
      × (e.port < 2 ^ 16)
      × AllNamed rest

  make_endpoint_same :
      (e : Endpoint)
      → ips.make_address (ips.to_text e.address) ≡ some e.address
      → e.port < 2 ^ 16
      → make_endpoint ips (ips.to_text e.address) (pos e.port) ≡ some e
  unfolding make_endpoint
  make_endpoint_same e named small =
      rw named (ap (λ (p : ℕ). some (record { address = e.address; port = p })) (omega arith))

  close_endpoint_erased :
      (b : Broker W) (e : Endpoint) (c : Context W)
      → find e b.listener_context ≡ some c
      → find e (close_endpoint st b e).0.listener_context ≡ none
  unfolding close_endpoint
  close_endpoint_erased b e c found =
      rw (found, close_endpoint) (ground (arith, find-erase e e b.listener_context, ep_eq_refl e))

  close_connection_same :
      (b : Broker W) (e : Endpoint)
      → ips.make_address (ips.to_text e.address) ≡ some e.address
      → e.port < 2 ^ 16
      → close_connection st ips b (ips.to_text e.address) (pos e.port)
        ≡ some (close_endpoint st b e)
  unfolding close_connection
  close_connection_same b e named small = rw (make_endpoint_same e named small) refl

  after_close_lem :
      (b : Broker W) (e : Endpoint) (c : Context W) (rest : Broker W → Option (Broker W))
      → find e b.listener_context ≡ some c
      → after_close e rest (some (close_endpoint st b e)) ≡ none
  after_close_lem b e c rest found = rw (close_endpoint_erased b e c found, go_on) refl

  close_from_lem :
      (es : List (Endpoint × Context W)) (b : Broker W)
      → b.listener_context ≡ es
      → AllNamed es
      → close_from es b ≡ (if is_empty es then some b else none)
  unfolding close_from find
  close_from_lem [] b h named = refl
  close_from_lem ((e, c) ∷ rest) b h (named, small, others) =
      let found : find e b.listener_context ≡ some c = rw h (rw (ep_eq_refl e) refl) in
      rw (found, close_from)
        (rw (close_connection_same b e named small) (after_close_lem b e c (close_from rest) found))

  -- A broker can be destroyed only where it has no connection: with one, the loop of the destructor
  -- goes on from the entry that CloseConnection has just erased, which is undefined. This is given that
  -- the text of each address is read back as the address, and each port has 16 bits.
  pub destroy_broker_lem :
      (b : Broker W)
      → AllNamed b.listener_context
      → destroy_broker b ≡ (if is_empty b.listener_context then some b else none)
  unfolding destroy_broker
  destroy_broker_lem b named = close_from_lem b.listener_context b refl named
