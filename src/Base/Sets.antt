-- ===== src/Base/Sets.antt =====
-- What `HashSet` equality and size say of the lists that the sets were collected from.
use Prim.Native.Nat.{ℕ, suc, ◌+◌, ◌≤◌, ◌<◌}
use mathlib.Core.Path.{◌≡◌, refl, ap, ◌∙◌, sym}
use mathlib.Core.Logic.{◌↔◌, inl, inr}
use mathlib.Core.Bool.{true}
use mathlib.Core.List.{List, [], ◌∷◌}
use native.Mathlib.Omega.{arith}
use gossipsub_testground.Base.Tests.{ltb, ◌==◌, if◌then◌else◌, ==_self, ==_iff, Bool-cases}
use gossipsub_testground.Base.Lists.{length, all, All}
use gossipsub_testground.Base.Counting.{count, sum_below, sum-count, sum_below-eq, sum_below-cong}
use gossipsub_testground.Base.Maps.{elem, set_of, set_eq}

pub elem-count : (v : ℕ) (xs : List ℕ) → elem v xs ≡ ltb 0 (count v xs)
elem-count v [] = refl
elem-count v (x ∷ xs) = ground (arith, elem-count v xs)

pub count-set_of : (v : ℕ) (xs : List ℕ) → count v (set_of xs) ≡ (if elem v xs then 1 else 0)
unfolding set_of
count-set_of v [] = refl
count-set_of v (x ∷ xs) = elim (Bool-cases (elem x (set_of xs))) [
  | inl old ↦ ground (arith, old, count-set_of v xs, count-set_of x xs, elem-count x (set_of xs))
  | inr new ↦ ground (arith, new, count-set_of v xs, count-set_of x xs, elem-count x (set_of xs))
]

pub length-set_of-le : (xs : List ℕ) → length (set_of xs) ≤ length xs
unfolding set_of
length-set_of-le [] = omega arith
length-set_of-le (x ∷ xs) = ground (arith, length-set_of-le xs)

-- A set as large as the list that it was collected from is that list, and the list repeats nothing.
pub set_of_same_length : (xs : List ℕ) → length (set_of xs) ≡ length xs → set_of xs ≡ xs
unfolding set_of
set_of_same_length [] e = refl
set_of_same_length (x ∷ xs) e =
    ground
      (arith, length-set_of-le xs, λ (h : length (set_of xs) ≡ length xs). set_of_same_length xs h)

pub count-le-one_of_length :
    (xs : List ℕ) → length (set_of xs) ≡ length xs → (v : ℕ) → count v xs ≤ 1
count-le-one_of_length xs e v =
    ground (arith, ap (count v) (set_of_same_length xs e), count-set_of v xs)

pub set_of_no_repeats : (xs : List ℕ) → ((v : ℕ) → count v xs ≤ 1) → set_of xs ≡ xs
unfolding set_of
set_of_no_repeats [] h = refl
set_of_no_repeats (x ∷ xs) h =
    let ih = set_of_no_repeats xs (λ v. ground (arith, h v)) in
    ground (arith, ih, elem-count x (set_of xs), ap (count x) ih, h x, ==_self x)

bound : List ℕ → ℕ
bound [] = 0
bound (x ∷ xs) = x + 1 + bound xs

All-bound : (n : ℕ) (xs : List ℕ) → bound xs ≤ n → All (λ x. x < n) xs
unfolding bound
All-bound n [] h = tt
All-bound n (x ∷ xs) h = (omega arith, All-bound n xs (omega arith))

all-elem :
    (s t : List ℕ) → all (λ x. elem x t) s ≡ true → (v : ℕ) → elem v s ≡ true → elem v t ≡ true
all-elem [] t h v e = cc
all-elem (x ∷ s) t h v e = elim (Bool-cases (v == x)) [
  | inl same ↦ rw ((==_iff v x).0 same) (ground arith)
  | inr other ↦ all-elem s t (ground arith) v (ground arith)
]

elem-all :
    (s t : List ℕ) → ((v : ℕ) → elem v s ≡ true → elem v t ≡ true) → all (λ x. elem x t) s ≡ true
elem-all [] t h = refl
elem-all (x ∷ s) t h =
    let here = h x (ground (arith, ==_self x)) in
    let later = elem-all s t (λ v e. h v (ground arith)) in ground arith

pub elem-set_of : (v : ℕ) (xs : List ℕ) → elem v (set_of xs) ≡ elem v xs
elem-set_of v xs = ground (arith, elem-count v (set_of xs), count-set_of v xs)

count-set_of-le :
    (xs ys : List ℕ)
    → ((v : ℕ) → elem v xs ≡ true → elem v ys ≡ true)
    → (v : ℕ) → count v (set_of xs) ≤ count v (set_of ys)
count-set_of-le xs ys sub v = elim (Bool-cases (elem v xs)) [
  | inl e ↦ ground (arith, count-set_of v xs, count-set_of v ys, sub v e)
  | inr e ↦ ground (arith, count-set_of v xs)
]

-- A set inside another of the same size is that other set.
subset_same_size :
    (xs ys : List ℕ)
    → length (set_of xs) ≡ length (set_of ys)
    → ((v : ℕ) → elem v xs ≡ true → elem v ys ≡ true)
    → (v : ℕ) → elem v xs ≡ elem v ys
subset_same_size xs ys e sub v = ground (arith, same, count-set_of v xs, count-set_of v ys)
  where
    n : ℕ
    n = bound (set_of xs) + bound (set_of ys) + suc v

    total :
        (zs : List ℕ)
        → bound (set_of zs) ≤ n
        → sum_below n (λ w. count w (set_of zs)) ≡ length (set_of zs)
    total zs h = sum-count n (set_of zs) (All-bound n (set_of zs) h)

    same : count v (set_of xs) ≡ count v (set_of ys)
    same =
        sum_below-eq n (λ w. count w (set_of xs)) (λ w. count w (set_of ys))
          (count-set_of-le xs ys sub) (total xs (omega arith) ∙ e ∙ sym (total ys (omega arith))) v
          (omega arith)

length-set_of_same :
    (xs ys : List ℕ) → ((v : ℕ) → elem v xs ≡ elem v ys) → length (set_of xs) ≡ length (set_of ys)
length-set_of_same xs ys h =
    sym (sum-count n (set_of xs) (All-bound n (set_of xs) (omega arith)))
    ∙ sum_below-cong n (λ w. count w (set_of xs)) (λ w. count w (set_of ys))
        (λ w. ground (arith, count-set_of w xs, count-set_of w ys, h w))
    ∙ sum-count n (set_of ys) (All-bound n (set_of ys) (omega arith))
  where
    n : ℕ
    n = bound (set_of xs) + bound (set_of ys)

set_eq-same :
    (xs ys : List ℕ) → set_eq (set_of xs) (set_of ys) ≡ true → (v : ℕ) → elem v xs ≡ elem v ys
unfolding set_eq
set_eq-same xs ys h = subset_same_size xs ys (ground arith) (λ v e. ground (
  arith,
  all-elem (set_of xs) (set_of ys) (ground arith) v (ground (arith, elem-set_of v xs)),
  elem-set_of v ys,
))

same-set_eq :
    (xs ys : List ℕ) → ((v : ℕ) → elem v xs ≡ elem v ys) → set_eq (set_of xs) (set_of ys) ≡ true
unfolding set_eq
same-set_eq xs ys h = ground (
  arith,
  length-set_of_same xs ys h,
  elem-all (set_of xs) (set_of ys) (λ v e. ground (arith, elem-set_of v xs, elem-set_of v ys, h v)),
)

-- Two collected sets are equal exactly when the lists have the same elements.
pub set_eq_iff :
    (xs ys : List ℕ) → (set_eq (set_of xs) (set_of ys) ≡ true) ↔ ((v : ℕ) → elem v xs ≡ elem v ys)
set_eq_iff xs ys = (set_eq-same xs ys, same-set_eq xs ys)
