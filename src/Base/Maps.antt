-- ===== src/Base/Maps.antt =====
-- `BTreeMap<usize, V>` as an association list in key order, and the `HashSet` of numbers.
use Prim.Native.Nat.{ℕ, ◌+◌, ◌≤◌, ◌<◌}
use mathlib.Core.Path.{◌≡◌, refl}
use mathlib.Core.Bool.{Bool, ◌&&◌}
use mathlib.Core.List.{List, [], ◌∷◌, map}
use mathlib.Core.Option.{Option, none, some}
use native.Mathlib.Omega.{arith}
use gossipsub_testground.Base.Tests.{ltb, ◌==◌, if◌then◌else◌}
use gossipsub_testground.Base.Lists.{length, any, all, All}

module _ {ℓ} {V : Type ℓ} where
  abbrev pub get : ℕ → List (ℕ × V) → Option V
  get j [] = none
  get j ((k, v) ∷ m) = if j == k then some v else get j m

  -- `insert` replaces the value of a key that is there, and keeps the key order.
  unfoldable pub insert : ℕ → V → List (ℕ × V) → List (ℕ × V)
  insert j v [] = (j, v) ∷ []
  insert j v ((k, w) ∷ m) =
      if ltb j k then (j, v) ∷ (k, w) ∷ m else if j == k then (j, v) ∷ m else (k, w) ∷ insert j v m

  pub get-insert :
      (i j : ℕ) (v : V) (m : List (ℕ × V))
      → get i (insert j v m) ≡ (if i == j then some v else get i m)
  unfolding insert
  get-insert i j v [] = refl
  get-insert i j v ((k, w) ∷ m) = ground (arith, get-insert i j v m)

  pub length-insert : (j : ℕ) (v : V) (m : List (ℕ × V)) → length (insert j v m) ≤ length m + 1
  unfolding insert
  length-insert j v [] = omega arith
  length-insert j v ((k, w) ∷ m) = ground (arith, length-insert j v m)

  abbrev pub keys : List (ℕ × V) → List ℕ
  keys = map (λ e. e.0)

  abbrev pub values : List (ℕ × V) → List V
  values = map (λ e. e.1)

abbrev pub elem : ℕ → List ℕ → Bool
elem x = any (λ y. x == y)

-- `HashSet::insert` and `collect`: a list with no element twice, in no order that matters.
unfoldable pub set_insert : ℕ → List ℕ → List ℕ
set_insert x s = if elem x s then s else x ∷ s

unfoldable pub set_of : List ℕ → List ℕ
unfolding set_insert
set_of [] = []
set_of (x ∷ xs) = set_insert x (set_of xs)

-- `HashSet::eq`: as many elements, and each of the one in the other.
unfoldable pub set_eq : List ℕ → List ℕ → Bool
set_eq s t = length s == length t && all (λ x. elem x t) s

-- `BTreeSet::insert`: a list in increasing order.
unfoldable pub ordered_insert : ℕ → List ℕ → List ℕ
ordered_insert x [] = x ∷ []
ordered_insert x (y ∷ ys) =
    if ltb x y then x ∷ y ∷ ys else if x == y then y ∷ ys else y ∷ ordered_insert x ys

unfoldable pub ordered_of : List ℕ → List ℕ
ordered_of [] = []
ordered_of (x ∷ xs) = ordered_insert x (ordered_of xs)

-- `BTreeMap::from_iter` of pairs: a later pair replaces an earlier one of its key.
unfoldable pub collect_map {ℓ} : {V : Type ℓ} → List (ℕ × V) → List (ℕ × V) → List (ℕ × V)
collect_map m [] = m
collect_map m ((k, v) ∷ r) = collect_map (insert k v m) r

pub length-le-insert {ℓ} :
    {V : Type ℓ} (j : ℕ) (v : V) (m : List (ℕ × V)) → length m ≤ length (insert j v m)
unfolding insert
length-le-insert j v [] = omega arith
length-le-insert j v ((k, w) ∷ m) = ground (arith, length-le-insert j v m)

-- The keys of the entries grow.
abbrev pub HasSortedKeys {ℓ} : {V : Type ℓ} → List (ℕ × V) → Type ℓ
HasSortedKeys [] = Unit
HasSortedKeys (e ∷ m) = All (λ d. e.0 < d.0) m × HasSortedKeys m

pub get-above {ℓ} :
    {V : Type ℓ} (i k : ℕ) (m : List (ℕ × V)) → i ≤ k → All (λ d. k < d.0) m → get i m ≡ none
get-above i k [] le h = refl
get-above i k (d ∷ m) le h = ground (arith, get-above i k m le h.1)
