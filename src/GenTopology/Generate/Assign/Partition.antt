-- ===== src/GenTopology/Generate/Assign/Partition.antt =====
-- The assignment of `Network::generate` is a partition: the cuts are sorted from 0 to the number of
-- validators, so the slices between them lie one behind the other.
use gossipsub_testground.Base.{
  ℕ, suc, ◌+◌, ◌-◌, ◌≤◌, ◌<◌, ◌≡◌, refl, sym, ap, ◌∙◌, List, [], ◌∷◌, ◌++◌, arith, ok, for_each,
  length, take, drop, ltb, ◌==◌, if◌then◌else◌, All, word, wrapping_sub, range_from, length-append,
  All-append, length-range_from,
}
use gossipsub_testground.Base.Counting.{
  count, count_if-append, count_if-perm, length-perm, count-range_from, All-lt_of_count,
}
use gossipsub_testground.Base.Maps.{ordered_of}
use gossipsub_testground.Base.Sets.{elem-count}
use gossipsub_testground.GenTopology.Params.{Params}
use gossipsub_testground.GenTopology.Network.{all_vals}
use gossipsub_testground.GenTopology.Network.Sound.{IsPartition}
use gossipsub_testground.GenTopology.Rng.{Rng, IsLawful}
use gossipsub_testground.GenTopology.Generate.Assign.{
  sort, windows, slice, enumerate, assign_node, cut_validators, assign_validators,
}
use gossipsub_testground.GenTopology.Generate.Assign.Cuts.{
  Sorted, All-sort, sort-Sorted, count-sort, length-sort, last_cut, last_cut-ge, last_cut-le,
  first_cut-zero, drop-drop, count-take-add, count-take-le, count-drop-le, count-ordered_of,
  IsNumbered, HasKeysBelow, collect_map_numbered, IsNumbered-below, take-length,
}

abbrev IsUnrepeated : List ℕ → Type 0
IsUnrepeated xs = (v : ℕ) → count v xs ≤ 1

-- The entries that the windows of sorted cuts give.
record Entries (xs : List ℕ) (i c : ℕ) (cs : List ℕ) : Type 0 where
  entries : List (ℕ × List ℕ)
  made : for_each (assign_node xs) (enumerate i (windows (c ∷ cs))) ≡ ok entries
  numbered : IsNumbered i entries
  as_many : length entries ≡ length cs
  covered : (v : ℕ) → count v (all_vals entries) ≡ count v (take (last_cut c cs - c) (drop c xs))

slice_fits :
    (xs : List ℕ) (c d : ℕ) → c ≤ d → d ≤ length xs → slice xs c d ≡ ok (take (d - c) (drop c xs))
unfolding slice
slice_fits xs c d h k = ground arith

count-slice_two :
    (v c d e : ℕ) (xs : List ℕ)
    → c ≤ d
    → d ≤ e
    → count v (take (d - c) (drop c xs)) + count v (take (e - d) (drop d xs))
      ≡ count v (take (e - c) (drop c xs))
count-slice_two v c d e xs h k =
    let split = count-take-add v (d - c) (e - d) (drop c xs) in
    let a : d - c + (e - d) ≡ e - c = omega arith in
    let b : c + (d - c) ≡ d = omega arith in sym (rw (a, drop-drop (d - c) c xs, b) at split)

take_nothing : (v c : ℕ) (xs : List ℕ) → 0 ≡ count v (take (c - c) (drop c xs))
take_nothing v c xs = let e : c - c ≡ 0 = omega arith in rw e

cut_entries :
    (xs : List ℕ) (i c : ℕ) (cs : List ℕ)
    → IsUnrepeated xs
    → Sorted (c ∷ cs)
    → All (λ x. x ≤ length xs) (c ∷ cs)
    → Entries xs i c cs
unfolding windows enumerate assign_node all_vals last_cut
cut_entries xs i c [] once s h = record {
  entries = [];
  made = refl;
  numbered = tt;
  as_many = refl;
  covered = λ v. take_nothing v c xs;
}
cut_entries xs i c (d ∷ ds) once s h =
    let rest = cut_entries xs (suc i) d ds once s.1 h.1 in
    let part = take (d - c) (drop c xs) in
    record {
      entries = (i, ordered_of part) ∷ rest.entries;
      made = rw (slice_fits xs c d s.0.0 h.1.0, rest.made);
      numbered = (refl, rest.numbered);
      as_many = omega (arith, rest.as_many);
      covered = λ v. omega (
        arith,
        count_if-append (λ x. x == v) (ordered_of part) (all_vals rest.entries),
        count-ordered_of v part
            (λ w. omega (arith, once w, count-take-le w (d - c) (drop c xs), count-drop-le w c xs)),
        rest.covered v,
        count-slice_two v c d (last_cut d ds) xs s.0.0 (last_cut-ge d d ds s.1 (ground arith)),
      );
    }

-- The cuts of the shuffled validators, whatever was chosen among them.
record Cut (n : ℕ) (shuffled chosen : List ℕ) (k : ℕ) : Type 0 where
  assignments : List (ℕ × List ℕ)
  made : cut_validators shuffled (sort (chosen ++ n ∷ 0 ∷ [])) ≡ ok assignments
  covered : (v : ℕ) → count v (all_vals assignments) ≡ count v shuffled
  placed : length chosen < k → HasKeysBelow k assignments
  numbered : IsNumbered 0 assignments

from_Sorted :
    (n : ℕ) (shuffled chosen : List ℕ) (k : ℕ)
    → length shuffled ≡ n
    → IsUnrepeated shuffled
    → (cuts : List ℕ) → sort (chosen ++ n ∷ 0 ∷ []) ≡ cuts
    → Sorted cuts
    → All (λ x. x ≤ length shuffled) cuts
    → ((v : ℕ) → count v cuts ≡ count v (chosen ++ n ∷ 0 ∷ []))
    → length cuts ≡ length chosen + 2
    → Cut n shuffled chosen k
unfolding cut_validators
from_Sorted n shuffled chosen k e once [] at s small same long = absurd (omega arith)
from_Sorted n shuffled chosen k e once (c ∷ cs) at s small same long = record {
  assignments = es.entries;
  made = rw (at, es.made) (ap ok (collect_map_numbered 0 [] es.entries tt es.numbered));
  covered = λ v. es.covered v ∙ whole v;
  numbered = es.numbered;
  placed = λ lt. IsNumbered-below 0 k es.entries (omega (arith, es.as_many)) es.numbered;
}
  where
    es : Entries shuffled 0 c cs
    es = cut_entries shuffled 0 c cs once s small

    tails : (v : ℕ) → count v (chosen ++ n ∷ 0 ∷ []) ≡ count v chosen + count v (n ∷ 0 ∷ [])
    tails v = count_if-append (λ x. x == v) chosen (n ∷ 0 ∷ [])

    starts : c ≡ 0
    starts = first_cut-zero c cs s (ground (arith, elem-count 0 (c ∷ cs), same 0, tails 0))

    ends : last_cut c cs ≡ n
    ends = omega (
      arith,
      e,
      last_cut-le (length shuffled) c cs small,
      last_cut-ge n c cs s (ground (arith, elem-count n (c ∷ cs), same n, tails n)),
    )

    whole : (v : ℕ) → count v (take (last_cut c cs - c) (drop c shuffled)) ≡ count v shuffled
    whole v =
        let f : n - 0 ≡ n = omega arith in
        rw (ends, starts, f, ← e) (ap (count v) (take-length shuffled))

All-le_of_lt : (n m : ℕ) (xs : List ℕ) → n ≤ m → All (λ x. x < n) xs → All (λ x. x ≤ m) xs
All-le_of_lt n m [] le h = tt
All-le_of_lt n m (x ∷ xs) le h = (omega arith, All-le_of_lt n m xs le h.1)

Cut-chosen :
    (n : ℕ) (shuffled chosen : List ℕ) (k : ℕ)
    → length shuffled ≡ n
    → IsUnrepeated shuffled
    → All (λ x. x < n) chosen
    → Cut n shuffled chosen k
Cut-chosen n shuffled chosen k e once small =
    from_Sorted n shuffled chosen k e once (sort all_cuts) refl (sort-Sorted all_cuts)
      (All-sort (λ x. x ≤ length shuffled) all_cuts
        (All-append (λ x. x ≤ length shuffled) chosen (n ∷ 0 ∷ [])
          (All-le_of_lt n (length shuffled) chosen (omega arith) small)
          (omega arith, (omega arith, tt))))
      (λ v. count-sort v all_cuts)
      (omega (arith, length-sort all_cuts, length-append chosen (n ∷ 0 ∷ [])))
  where
    all_cuts : List ℕ
    all_cuts = chosen ++ n ∷ 0 ∷ []

module _ (r : Rng) (lawful : IsLawful r) (params : Params) (gen : r.State) where
  n : ℕ
  n = params.total_validators

  k : ℕ
  k = wrapping_sub params.total_nodes_with_vals 1

  chosen : List ℕ
  chosen = (r.choose_multiple gen (range_from 0 n) k).0

  shuffled : List ℕ
  shuffled = (r.shuffle ℕ (r.choose_multiple gen (range_from 0 n) k).1 (range_from 0 n)).0

  count-shuffled : (v : ℕ) → count v shuffled ≡ (if ltb v n then 1 else 0)
  unfolding shuffled
  count-shuffled v =
      count_if-perm (λ x. x == v) (lawful.shuffled ℕ _ (range_from 0 n))
      ∙ ground (arith, count-range_from v 0 n)

  length-shuffled : length shuffled ≡ n
  unfolding shuffled
  length-shuffled = length-perm (lawful.shuffled ℕ _ (range_from 0 n)) ∙ length-range_from 0 n

  chosen_small : All (λ x. x < n) chosen
  unfolding chosen
  chosen_small =
      let (rest, p) = lawful.chosen gen (range_from 0 n) k in
      All-lt_of_count n chosen (λ v le. ground (
        arith,
        count_if-append (λ x. x == v) chosen rest,
        count_if-perm (λ x. x == v) p,
        count-range_from v 0 n,
      ))

  the-Cut : Cut n shuffled chosen params.total_nodes_with_vals
  the-Cut =
      Cut-chosen n shuffled chosen params.total_nodes_with_vals length-shuffled
        (λ v. ground (arith, count-shuffled v)) chosen_small

  -- What the block returns.
  pub assigned :
      (va : List (ℕ × List ℕ)) × (gen' : r.State) × (assign_validators r params gen ≡ ok (va, gen'))
      × IsPartition params.total_validators va
  unfolding assign_validators chosen shuffled n k
  assigned = (
    the-Cut.assignments,
    (r.shuffle ℕ (r.choose_multiple gen (range_from 0 n) k).1 (range_from 0 n)).1,
    rw the-Cut.made refl,
    λ v. the-Cut.covered v ∙ count-shuffled v,
  )

  -- For any lawful generator, if some node has validators and their number fits in a `usize`, the
  -- block that assigns validators returns, gives each id below `total_validators` to exactly one
  -- place and no other id to any, and gives none to a node of id `total_nodes_with_vals` or more.
  pub assign_validators-IsPartition :
      0 < params.total_nodes_with_vals
      → params.total_nodes_with_vals < word
      → (va : List (ℕ × List ℕ)) × (gen' : r.State) × (assign_validators r params gen
          ≡ ok (va, gen'))
        × IsPartition params.total_validators va
        × HasKeysBelow params.total_nodes_with_vals va
  unfolding assign_validators chosen shuffled n k
  assign_validators-IsPartition some_node fits = (
    the-Cut.assignments,
    (r.shuffle ℕ (r.choose_multiple gen (range_from 0 n) k).1 (range_from 0 n)).1,
    rw the-Cut.made refl,
    λ v. the-Cut.covered v ∙ count-shuffled v,
    the-Cut.placed (ground (arith, lawful.chosen_length gen (range_from 0 n) k)),
  )

  -- The entries stand under the numbers from 0 on.
  pub assigned-IsNumbered :
      0 < params.total_nodes_with_vals
      → params.total_nodes_with_vals < word
      → (va : List (ℕ × List ℕ)) × (gen' : r.State) × (assign_validators r params gen
          ≡ ok (va, gen'))
        × IsPartition params.total_validators va
        × HasKeysBelow params.total_nodes_with_vals va
        × IsNumbered 0 va
  unfolding assign_validators chosen shuffled n k
  assigned-IsNumbered some_node fits = (
    the-Cut.assignments,
    (r.shuffle ℕ (r.choose_multiple gen (range_from 0 n) k).1 (range_from 0 n)).1,
    rw the-Cut.made refl,
    λ v. the-Cut.covered v ∙ count-shuffled v,
    the-Cut.placed (ground (arith, lawful.chosen_length gen (range_from 0 n) k)),
    the-Cut.numbered,
  )
