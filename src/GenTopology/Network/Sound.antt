-- ===== src/GenTopology/Network/Sound.antt =====
-- `Network::new` accepts exactly the assignments that give each validator id to one place, over a
-- topology whose edges reach each node.
use gossipsub_testground.Base.{
  ℕ, suc, ◌-◌, ◌≤◌, ◌<◌, ◌≡◌, ◌↔◌, refl, sym, ap, ◌∙◌, inl, inr, List, [], ◌∷◌, none, some, true,
  Bool, ◌⊎◌, arith, ok, err, length, length-append, ltb, if◌then◌else◌, range_from, All, Bool-cases,
  Option-cases,
}
use gossipsub_testground.Base.Counting.{
  count, count_full, count_large, count-range_from, length_of_count,
}
use gossipsub_testground.Base.Maps.{elem, set_of, set_eq}
use gossipsub_testground.Base.Sets.{
  elem-count, set_eq_iff, set_of_same_length, set_of_no_repeats, count-le-one_of_length,
}
use gossipsub_testground.GenTopology.Params.{Params}
use gossipsub_testground.GenTopology.Network.{
  Network, total_vals, all_vals, all_peers, max_of, min_of, new, peers_differ,
}

-- Each id below `n` is assigned once, and no other.
abbrev pub IsPartition : ℕ → List (ℕ × List ℕ) → Type 0
IsPartition n va = (v : ℕ) → count v (all_vals va) ≡ (if ltb v n then 1 else 0)

-- The ends of the edges are the numbers below `n`.
abbrev pub Covers : ℕ → List (ℕ × List ℕ) → Type 0
Covers n op = (v : ℕ) → elem v (all_peers op) ≡ ltb v n

pub total_vals-length : (va : List (ℕ × List ℕ)) → total_vals va ≡ length (all_vals va)
unfolding total_vals all_vals
total_vals-length [] = refl
total_vals-length ((k, vals) ∷ m) =
    omega (arith, total_vals-length m, length-append vals (all_vals m))

max_of-none : (xs : List ℕ) → max_of xs ≡ none → xs ≡ []
unfolding max_of
max_of-none [] e = refl
max_of-none (x ∷ xs) e = ground arith

All-lt_mono : (m n : ℕ) (xs : List ℕ) → m ≤ n → All (λ x. x < m) xs → All (λ x. x < n) xs
All-lt_mono m n [] le h = tt
All-lt_mono m n (x ∷ xs) le h = (omega arith, All-lt_mono m n xs le h.1)

max_of-bounds :
    (xs : List ℕ) (m : ℕ) → max_of xs ≡ some m → All (λ x. x < suc m) xs × (elem m xs ≡ true)
unfolding max_of
max_of-bounds [] m e = cc
max_of-bounds (x ∷ xs) m e = elim (Option-cases (max_of xs)) [
  | inl n ↦ rw (max_of-none xs n) ((ground (arith, n), tt), ground (arith, n))
  | inr (k, s) ↦
      let (small, here) = max_of-bounds xs k s in
      (
        (ground (arith, s), All-lt_mono (suc k) (suc m) xs (ground (arith, s)) small),
        ground (arith, s, here),
      )
]

elem-le : (m v : ℕ) (xs : List ℕ) → All (λ x. x < suc m) xs → elem v xs ≡ true → v ≤ m
elem-le m v [] h e = cc
elem-le m v (x ∷ xs) h e = ground (arith, elem-le m v xs h.1)

max_of-elem : (v : ℕ) (xs : List ℕ) → elem v xs ≡ true → (m : ℕ) × (max_of xs ≡ some m)
max_of-elem v xs e = elim (Option-cases (max_of xs)) [
  | inl n ↦ absurd (let k = ap (elem v) (max_of-none xs n) in cc)
  | inr found ↦ found
]

min_of-none : (xs : List ℕ) → min_of xs ≡ none → xs ≡ []
unfolding min_of
min_of-none [] e = refl
min_of-none (x ∷ xs) e = ground arith

min_of_zero : (xs : List ℕ) → elem 0 xs ≡ true → min_of xs ≡ some 0
unfolding min_of
min_of_zero [] e = cc
min_of_zero (x ∷ xs) e = elim (Bool-cases (elem 0 xs)) [
  | inl later ↦ ground (arith, min_of_zero xs later)
  | inr here ↦ ground arith
]

length-pos_of_elem : (v : ℕ) (xs : List ℕ) → elem v xs ≡ true → 0 < length xs
length-pos_of_elem v [] e = cc
length-pos_of_elem v (x ∷ xs) e = omega arith

-- The checks on the validators pass exactly for a partition.
count-small_of_accept :
    (params : Params) (va : List (ℕ × List ℕ)) (m : ℕ)
    → total_vals va ≡ params.total_validators
    → length (set_of (all_vals va)) ≡ total_vals va
    → max_of (set_of (all_vals va)) ≡ some m
    → m ≡ params.total_validators - 1
    → IsPartition params.total_validators va
count-small_of_accept params va m total distinct top last v = ground (
  arith,
  count_full params.total_validators vals (omega (arith, total_vals-length va)) once below v,
  count_large params.total_validators vals below v,
)
  where
    vals : List ℕ
    vals = all_vals va

    unrepeated : length (set_of vals) ≡ length vals
    unrepeated = distinct ∙ total_vals-length va

    once : (w : ℕ) → count w vals ≤ 1
    once = count-le-one_of_length vals unrepeated

    top' : max_of vals ≡ some m
    top' = ap max_of (sym (set_of_same_length vals unrepeated)) ∙ top

    some_val : 0 < params.total_validators
    some_val =
        omega (arith, total_vals-length va, length-pos_of_elem m vals (max_of-bounds vals m top').1)

    below : All (λ x. x < params.total_validators) vals
    below = All-lt_mono (suc m) _ vals (omega (arith, some_val)) (max_of-bounds vals m top').0

-- What the checks have compared when `new` returns `ok`.
record Accepted (params : Params) (va op : List (ℕ × List ℕ)) (n : Network) : Type 0 where
  total : total_vals va ≡ params.total_validators
  distinct : length (set_of (all_vals va)) ≡ total_vals va
  top : max_of (set_of (all_vals va)) ≡ some (params.total_validators - 1)
  bottom : min_of (set_of (all_vals va)) ≡ some 0
  peers : set_eq (set_of (all_peers op)) (set_of (range_from 0 params.total_nodes)) ≡ true
  result : n ≡ record { params = params; validator_assignments = va; outbound_peers = op }

new-Accepted :
    (params : Params) (va op : List (ℕ × List ℕ)) (n : Network)
    → new params va op ≡ ok n
    → Accepted params va op n
unfolding new
new-Accepted params va op n h = record {
  total = ground arith;
  distinct = ground arith;
  top = ground arith;
  bottom = ground arith;
  peers = ground arith;
  result = ground arith;
}

Accepted-new :
    (params : Params) (va op : List (ℕ × List ℕ)) (n : Network)
    → Accepted params va op n
    → new params va op ≡ ok n
unfolding new
Accepted-new params va op n a = ground arith

elem-range_from : (v n : ℕ) → elem v (range_from 0 n) ≡ ltb v n
elem-range_from v n = ground (arith, elem-count v (range_from 0 n), count-range_from v 0 n)

-- The facts that a partition has to offer to the checks.
IsPartition-top :
    (n : ℕ) (va : List (ℕ × List ℕ))
    → 0 < n
    → IsPartition n va
    → (max_of (all_vals va) ≡ some (n - 1)) × (min_of (all_vals va) ≡ some 0)
IsPartition-top n va pos part =
    let (m, e) = max_of-elem (n - 1) vals last in
    let (small, here) = max_of-bounds vals m e in
    let le = elem-le m (n - 1) vals small last in
    (
      ground (arith, e, le, here, part m, elem-count m vals),
      min_of_zero vals (ground (arith, part 0, elem-count 0 vals)),
    )
  where
    vals : List ℕ
    vals = all_vals va

    last : elem (n - 1) vals ≡ true
    last = ground (arith, part (n - 1), elem-count (n - 1) vals)

-- So the checks on the validators pass.
IsPartition-passes :
    (params : Params) (va : List (ℕ × List ℕ))
    → 0 < params.total_validators
    → IsPartition params.total_validators va
    → (total_vals va ≡ params.total_validators)
      × (length (set_of (all_vals va)) ≡ total_vals va)
      × (max_of (set_of (all_vals va)) ≡ some (params.total_validators - 1))
      × (min_of (set_of (all_vals va)) ≡ some 0)
IsPartition-passes params va pos part =
    let same = set_of_no_repeats (all_vals va) (λ v. ground (arith, part v)) in
    let (top, bottom) = IsPartition-top params.total_validators va pos part in
    (
      total_vals-length va ∙ length_of_count params.total_validators (all_vals va) part,
      ap length same ∙ sym (total_vals-length va),
      ap max_of same ∙ top,
      ap min_of same ∙ bottom,
    )

-- For parameters with a validator, `Network::new` returns `Ok(n)` exactly when each validator id
-- below `total_validators` is assigned once and no other id is, and the ends of the dialed edges
-- are exactly the node ids below `total_nodes`; then `n` holds the arguments.
pub new-eq-ok_iff_IsPartition :
    (params : Params) (va op : List (ℕ × List ℕ)) (n : Network)
    → 0 < params.total_validators
    → (new params va op ≡ ok n) ↔ (
        IsPartition params.total_validators va
        × Covers params.total_nodes op
        × (n ≡ record { params = params; validator_assignments = va; outbound_peers = op }))
new-eq-ok_iff_IsPartition params va op n pos = (forth, back)
  where
    forth :
        new params va op ≡ ok n
        → IsPartition params.total_validators va
          × Covers params.total_nodes op
          × (n ≡ record { params = params; validator_assignments = va; outbound_peers = op })
    forth h =
        let a = new-Accepted params va op n h in
        (
          count-small_of_accept params va (params.total_validators - 1) a.total a.distinct a.top
              refl,
          λ v.
              (set_eq_iff (all_peers op) (range_from 0 params.total_nodes)).0 a.peers v
              ∙ elem-range_from v params.total_nodes,
          a.result,
        )

    back :
        IsPartition params.total_validators va
          × Covers params.total_nodes op
          × (n ≡ record { params = params; validator_assignments = va; outbound_peers = op })
        → new params va op ≡ ok n
    back (part, cover, e) =
        let (total, distinct, top, bottom) = IsPartition-passes params va pos part in
        Accepted-new params va op n (record {
          total = total;
          distinct = distinct;
          top = top;
          bottom = bottom;
          peers =
              (set_eq_iff (all_peers op) (range_from 0 params.total_nodes)).1
                (λ v. cover v ∙ sym (elem-range_from v params.total_nodes));
          result = e;
        })

-- With the validators in order only the check of the peers is left.
pub new_of_IsPartition :
    (params : Params) (va op : List (ℕ × List ℕ))
    → 0 < params.total_validators
    → IsPartition params.total_validators va
    → (new params va op ≡ err peers_differ)
      ⊎ (Covers params.total_nodes op
          × (new params va op
              ≡ ok (record { params = params; validator_assignments = va; outbound_peers = op })))
unfolding new
new_of_IsPartition params va op pos part = elim (Bool-cases peers_match) [
  | inl same ↦
      let n : Network = record {
        params = params;
        validator_assignments = va;
        outbound_peers = op;
      } in
      let cover = λ (v : ℕ).
        (set_eq_iff (all_peers op) (range_from 0 params.total_nodes)).0 same v
        ∙ elem-range_from v params.total_nodes in
      inr (cover, (new-eq-ok_iff_IsPartition params va op _ pos).1 (part, cover, refl))
  | inr other ↦
      let (total, distinct, top, bottom) = IsPartition-passes params va pos part in
      inl (ground (arith, total, distinct, top, bottom))
]
  where
    peers_match : Bool
    peers_match = set_eq (set_of (all_peers op)) (set_of (range_from 0 params.total_nodes))
