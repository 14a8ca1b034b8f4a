-- ===== src/GenTopology/Generate/Connect/Possible.antt =====
-- The connections that the loop tries: each pair of node ids once, the smaller id first.
use gossipsub_testground.Base.{
  ℕ, zero, suc, ◌+◌, ◌-◌, ◌≡◌, List, [], ◌∷◌, map, Bool, ◌&&◌, arith, ltb, leb, ◌==◌, if◌then◌else◌,
  range_from,
}
use gossipsub_testground.Base.Counting.{count, count_if, count_if-append, count-range_from}
use gossipsub_testground.GenTopology.Generate.Connect.{connections_from}

abbrev pub is_pair : ℕ → ℕ → ℕ × ℕ → Bool
is_pair a b c = c.0 == a && c.1 == b

count-row :
    (a b i : ℕ) (js : List ℕ)
    → count_if (is_pair a b) (map (λ j. (i, j)) js) ≡ (if i == a then count b js else 0)
count-row a b i [] = ground arith
count-row a b i (j ∷ js) = ground (arith, count-row a b i js)

-- 1 if the pair is one of the connections, else 0.
possible : ℕ → ℕ → ℕ → ℕ
possible a b n = if ltb a b && ltb b n then 1 else 0

count-round :
    (a b n i : ℕ)
    → count_if (is_pair a b) (map (λ j. (i, j)) (range_from (suc i) (n - suc i)))
      ≡ (if i == a then possible a b n else 0)
unfolding possible
count-round a b n i = ground (
  arith,
  count-row a b i (range_from (suc i) (n - suc i)),
  count-range_from b (suc i) (n - suc i),
)

count-connections_from :
    (a b n i k : ℕ)
    → count_if (is_pair a b) (connections_from n i k)
      ≡ (if leb i a && ltb a (i + k) then possible a b n else 0)
unfolding connections_from
count-connections_from a b n i zero = ground arith
count-connections_from a b n i (suc k) = ground (
  arith,
  count_if-append (is_pair a b) (map (λ j. (i, j)) (range_from (suc i) (n - suc i)))
      (connections_from n (suc i) k),
  count-round a b n i,
  count-connections_from a b n (suc i) k,
)

pub count-all_connections :
    (a b n : ℕ)
    → count_if (is_pair a b) (connections_from n 0 n) ≡ (if ltb a b && ltb b n then 1 else 0)
unfolding possible
count-all_connections a b n = ground (arith, count-connections_from a b n 0 n)
