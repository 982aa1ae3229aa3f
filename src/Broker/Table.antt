-- ===== src/Broker/Table.antt =====
-- `tcp::endpoint`, and `std::map` with endpoints for keys as an association list.
use sdl_atf.Common.{
  ℕ, ◌≡◌, refl, ◌↔◌, Bool, true, ◌&&◌, Option, none, some, List, [], ◌∷◌, arith, ◌==◌,
  if◌then◌else◌,
}

-- An address is the number that `boost::asio::ip::address` holds.
pub record Endpoint : Type 0 where
  pub address : ℕ
  pub port : ℕ

abbrev pub ep_eq : Endpoint → Endpoint → Bool
ep_eq a b = a.address == b.address && a.port == b.port

pub ep_eq_iff : (a b : Endpoint) → (ep_eq a b ≡ true) ↔ (a ≡ b)
ep_eq_iff a b = ground arith

pub ep_eq_refl : (k : Endpoint) → ep_eq k k ≡ true
ep_eq_refl k = ground arith

module _ {V : Type 0} where
  unfoldable pub find : Endpoint → List (Endpoint × V) → Option V
  find k [] = none
  find k ((j, v) ∷ m) = if ep_eq j k then some v else find k m

  -- `m[k] = v`
  unfoldable pub put : Endpoint → V → List (Endpoint × V) → List (Endpoint × V)
  put k v [] = (k, v) ∷ []
  put k v ((j, w) ∷ m) = if ep_eq j k then (j, v) ∷ m else (j, w) ∷ put k v m

  unfoldable pub erase : Endpoint → List (Endpoint × V) → List (Endpoint × V)
  erase k [] = []
  erase k ((j, w) ∷ m) = if ep_eq j k then erase k m else (j, w) ∷ erase k m

  pub find-put :
      (k j : Endpoint) (v : V) (m : List (Endpoint × V))
      → find j (put k v m) ≡ (if ep_eq k j then some v else find j m)
  unfolding find put
  find-put k j v [] = refl
  find-put k j v ((i, w) ∷ m) = ground (arith, find-put k j v m)

  pub find-erase :
      (k j : Endpoint) (m : List (Endpoint × V))
      → find j (erase k m) ≡ (if ep_eq k j then none else find j m)
  unfolding find erase
  find-erase k j [] = ground arith
  find-erase k j ((i, w) ∷ m) = ground (arith, find-erase k j m)
