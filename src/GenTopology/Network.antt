-- ===== src/GenTopology/Network.antt =====
-- `Network` of eth_consensus/utils/gen_topology/src/lib.rs, and the checks of `Network::new`.
-- A `BTreeMap` is its entries in key order, a `BTreeSet` its elements in order.
pub mod Sound
use gossipsub_testground.Base.{
  ℕ, suc, ◌+◌, ◌-◌, ◌≡◌, refl, List, [], ◌∷◌, ◌++◌, Option, none, some, not, Outcome, ok, err,
  expect, ◌>>=◌, length, ltb, ◌==◌, if◌then◌else◌, range_from,
}
use gossipsub_testground.Base.Maps.{set_of, set_eq}
use gossipsub_testground.GenTopology.Params.{Params}

pub record Network : Type 0 where
  pub params : Params
  pub validator_assignments : List (ℕ × List ℕ)
  pub outbound_peers : List (ℕ × List ℕ)

pub data NetworkError : Type 0 where
  wrong_number assigned_more_than_once wrong_max wrong_min peers_differ : NetworkError

-- `.values().map(|validator_list| validator_list.len()).sum()`
unfoldable pub total_vals : List (ℕ × List ℕ) → ℕ
total_vals [] = 0
total_vals ((_, vals) ∷ m) = length vals + total_vals m

-- `.values().flat_map(|validator_list| validator_list.iter())`
unfoldable pub all_vals : List (ℕ × List ℕ) → List ℕ
all_vals [] = []
all_vals ((_, vals) ∷ m) = vals ++ all_vals m

-- `.flat_map(|(peer_a, dialed_peers)| dialed_peers.iter().chain(Some(peer_a)))`
unfoldable pub all_peers : List (ℕ × List ℕ) → List ℕ
all_peers [] = []
all_peers ((peer_a, dialed_peers) ∷ m) = (dialed_peers ++ peer_a ∷ []) ++ all_peers m

-- `Iterator::max` and `min`.
unfoldable pub max_of : List ℕ → Option ℕ
max_of [] = none
max_of (x ∷ xs) = elim (max_of xs) [ none ↦ some x | some m ↦ some (if ltb m x then x else m) ]

unfoldable pub min_of : List ℕ → Option ℕ
min_of [] = none
min_of (x ∷ xs) = elim (min_of xs) [ none ↦ some x | some m ↦ some (if ltb x m then x else m) ]

check_peers : Params → List (ℕ × List ℕ) → List (ℕ × List ℕ) → Outcome NetworkError Network
check_peers params va op =
    if not (set_eq (set_of (all_peers op)) (set_of (range_from 0 params.total_nodes)))
    then err peers_differ
    else ok (record { params = params; validator_assignments = va; outbound_peers = op })

check_range : Params → List ℕ → List (ℕ × List ℕ) → List (ℕ × List ℕ) → Outcome NetworkError Network
check_range params assigned va op = do
  highest ← expect (max_of assigned)
  if not (highest == params.total_validators - 1) then err wrong_max else do
    lowest ← expect (min_of assigned)
    if not (lowest == 0) then err wrong_min else check_peers params va op

unfoldable pub new :
    (params : Params) (validator_assignments outbound_peers : List (ℕ × List ℕ))
    → Outcome NetworkError Network
unfolding check_peers check_range
new params va op =
    let assigned = set_of (all_vals va) in
    if not (total_vals va == params.total_validators)
    then err wrong_number
    else if not (length assigned == total_vals va)
    then err assigned_more_than_once
    else check_range params assigned va op
