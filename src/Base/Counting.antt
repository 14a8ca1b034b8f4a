-- ===== src/Base/Counting.antt =====
-- How often a list holds an element: permutations, pigeonhole, and sums over `0..n`.
use Prim.Native.Nat.{ℕ, zero, suc, ◌+◌, ◌≤◌, ◌<◌}
use mathlib.Core.Path.{◌≡◌, refl, sym, ◌∙◌, subst}
use mathlib.Core.Logic.{∥∥₁_elim, ◌≢◌, inl, inr}
use mathlib.Core.Bool.{Bool}
use mathlib.Core.List.{List, [], ◌∷◌, ◌++◌, Perm, Permᴰ}
use native.Mathlib.Omega.{arith}
use native.Mathlib.Nat.{ℕ_set}
use gossipsub_testground.Base.Tests.{ltb, ◌==◌, ==_iff, Bool-cases, if◌then◌else◌}
use gossipsub_testground.Base.Lists.{length, All, range_from, length-range_from}

module _ {ℓ} {A : Type ℓ} where
  abbrev pub count_if : (A → Bool) → List A → ℕ
  count_if p [] = 0
  count_if p (x ∷ xs) = (if p x then 1 else 0) + count_if p xs

  pub count_if-append :
      (p : A → Bool) (xs ys : List A) → count_if p (xs ++ ys) ≡ count_if p xs + count_if p ys
  count_if-append p [] ys = omega arith
  count_if-append p (x ∷ xs) ys = omega (arith, count_if-append p xs ys)

  count_if-permᴰ : (p : A → Bool) {xs ys : List A} → Permᴰ xs ys → count_if p xs ≡ count_if p ys
  count_if-permᴰ p Permᴰ.nil = refl
  count_if-permᴰ p (Permᴰ.cons e h) = rw (e, count_if-permᴰ p h)
  count_if-permᴰ p (Permᴰ.swap e f) = rw (e, f) (omega arith)
  count_if-permᴰ p (Permᴰ.trans h k) = count_if-permᴰ p h ∙ count_if-permᴰ p k

  pub count_if-perm : (p : A → Bool) {xs ys : List A} → Perm xs ys → count_if p xs ≡ count_if p ys
  count_if-perm p h = ∥∥₁_elim h (ℕ_set _ _) (count_if-permᴰ p)

  length-permᴰ : {xs ys : List A} → Permᴰ xs ys → length xs ≡ length ys
  length-permᴰ Permᴰ.nil = refl
  length-permᴰ (Permᴰ.cons e h) = omega (arith, length-permᴰ h)
  length-permᴰ (Permᴰ.swap e f) = refl
  length-permᴰ (Permᴰ.trans h k) = length-permᴰ h ∙ length-permᴰ k

  pub length-perm : {xs ys : List A} → Perm xs ys → length xs ≡ length ys
  length-perm h = ∥∥₁_elim h (ℕ_set _ _) length-permᴰ

abbrev pub count : ℕ → List ℕ → ℕ
count v = count_if (λ x. x == v)

pub count-range_from :
    (v a k : ℕ) → count v (range_from a k) ≡ (if ltb v a then 0 else if ltb v (a + k) then 1 else 0)
count-range_from v a zero = ground arith
count-range_from v a (suc k) = ground (arith, count-range_from v (suc a) k)

-- A list with no number twice, none of `n` or more, and `n` numbers long holds each below `n` once.
unfoldable pub sum_below : ℕ → (ℕ → ℕ) → ℕ
sum_below zero f = 0
sum_below (suc n) f = f n + sum_below n f

pub sum_below-le : (n : ℕ) (f : ℕ → ℕ) → ((v : ℕ) → f v ≤ 1) → sum_below n f ≤ n
unfolding sum_below
sum_below-le zero f h = omega arith
sum_below-le (suc n) f h = omega (arith, h n, sum_below-le n f h)

pub sum_below_full :
    (n : ℕ) (f : ℕ → ℕ) → ((v : ℕ) → f v ≤ 1) → sum_below n f ≡ n → (v : ℕ) → v < n → f v ≡ 1
unfolding sum_below
sum_below_full zero f h e v lt = absurd (omega arith)
sum_below_full (suc n) f h e v lt = ground (
  arith,
  h n,
  sum_below-le n f h,
  λ (k : sum_below n f ≡ n) (below : v < n). sum_below_full n f h k v below,
)

sum_below_single :
    (n x : ℕ) → sum_below n (λ v. if x == v then 1 else 0) ≡ (if ltb x n then 1 else 0)
unfolding sum_below
sum_below_single zero x = ground arith
sum_below_single (suc n) x = ground (arith, sum_below_single n x)

sum_below-add : (n : ℕ) (f g : ℕ → ℕ) → sum_below n (λ v. f v + g v) ≡ sum_below n f + sum_below n g
unfolding sum_below
sum_below-add zero f g = refl
sum_below-add (suc n) f g = omega (arith, sum_below-add n f g)

pub sum_below_zero : (n : ℕ) → sum_below n (λ v. 0) ≡ 0
unfolding sum_below
sum_below_zero zero = refl
sum_below_zero (suc n) = omega (arith, sum_below_zero n)

pub sum-count :
    (n : ℕ) (xs : List ℕ) → All (λ x. x < n) xs → sum_below n (λ v. count v xs) ≡ length xs
sum-count n [] h = sum_below_zero n
sum-count n (x ∷ xs) h =
    sum_below-add n (λ v. if x == v then 1 else 0) (λ v. count v xs)
    ∙ ground (arith, sum_below_single n x, sum-count n xs h.1)

pub count_full :
    (n : ℕ) (xs : List ℕ)
    → length xs ≡ n
    → ((v : ℕ) → count v xs ≤ 1)
    → All (λ x. x < n) xs
    → (v : ℕ) → v < n
    → count v xs ≡ 1
count_full n xs e once small = sum_below_full n (λ v. count v xs) once (sum-count n xs small ∙ e)

pub count_large : (n : ℕ) (xs : List ℕ) → All (λ x. x < n) xs → (v : ℕ) → n ≤ v → count v xs ≡ 0
count_large n [] h v le = refl
count_large n (x ∷ xs) h v le = ground (arith, count_large n xs h.1 v le)

pub sum_below-le-sum : (n : ℕ) (f g : ℕ → ℕ) → ((v : ℕ) → f v ≤ g v) → sum_below n f ≤ sum_below n g
unfolding sum_below
sum_below-le-sum zero f g h = omega arith
sum_below-le-sum (suc n) f g h = omega (arith, h n, sum_below-le-sum n f g h)

-- Of two functions one of which is at most the other, equal sums make them equal.
pub sum_below-eq :
    (n : ℕ) (f g : ℕ → ℕ)
    → ((v : ℕ) → f v ≤ g v)
    → sum_below n f ≡ sum_below n g
    → (v : ℕ) → v < n
    → f v ≡ g v
unfolding sum_below
sum_below-eq zero f g h e v lt = absurd (omega arith)
sum_below-eq (suc n) f g h e v lt = ground (
  arith,
  h n,
  sum_below-le-sum n f g h,
  λ (k : sum_below n f ≡ sum_below n g) (below : v < n). sum_below-eq n f g h k v below,
)

pub sum_below-cong : (n : ℕ) (f g : ℕ → ℕ) → ((v : ℕ) → f v ≡ g v) → sum_below n f ≡ sum_below n g
unfolding sum_below
sum_below-cong zero f g h = refl
sum_below-cong (suc n) f g h = omega (arith, h n, sum_below-cong n f g h)

pub All-lt_of_count :
    (n : ℕ) (xs : List ℕ) → ((v : ℕ) → n ≤ v → count v xs ≡ 0) → All (λ x. x < n) xs
All-lt_of_count n [] h = tt
All-lt_of_count n (x ∷ xs) h =
    (ground (arith, h x), All-lt_of_count n xs (λ v le. ground (arith, h v le)))

pub length_of_count :
    (n : ℕ) (xs : List ℕ) → ((v : ℕ) → count v xs ≡ (if ltb v n then 1 else 0)) → length xs ≡ n
length_of_count n xs h =
    sym (sum-count n xs (All-lt_of_count n xs (λ v le. ground (arith, h v))))
    ∙ sum_below-cong n (λ v. count v xs) (λ v. count v (range_from 0 n))
        (λ v. ground (arith, h v, count-range_from v 0 n))
    ∙ sum-count n (range_from 0 n)
        (All-lt_of_count n (range_from 0 n) (λ v le. ground (arith, count-range_from v 0 n)))
    ∙ length-range_from 0 n

sum_below-cong_below :
    (n : ℕ) (f g : ℕ → ℕ) → ((v : ℕ) → v < n → g v ≡ f v) → sum_below n g ≡ sum_below n f
unfolding sum_below
sum_below-cong_below zero f g h = refl
sum_below-cong_below (suc n) f g h =
    omega (arith, h n (omega arith), sum_below-cong_below n f g (λ v lt. h v (omega arith)))

-- One entry grows by `d`.
pub sum_below-grow :
    (n : ℕ) (f g : ℕ → ℕ) (i d : ℕ)
    → i < n
    → g i ≡ f i + d
    → ((j : ℕ) → j ≢ i → g j ≡ f j)
    → sum_below n g ≡ sum_below n f + d
unfolding sum_below
sum_below-grow zero f g i d lt grown same = absurd (omega arith)
sum_below-grow (suc n) f g i d lt grown same = elim (Bool-cases (i == n)) [
  | inl last ↦
      let e = (==_iff i n).0 last in
      let rest = sum_below-cong_below n f g (λ v below. same v (λ q. absurd (omega arith))) in
      omega (arith, rest, subst (λ m. g m ≡ f m + d) e grown)
  | inr earlier ↦ ground (
    arith,
    same n (λ q. absurd (ground arith)),
    sum_below-grow n f g i d (ground arith) grown same,
  )
]

pub sum_below-ge : (n : ℕ) (f : ℕ → ℕ) → ((v : ℕ) → v < n → 1 ≤ f v) → n ≤ sum_below n f
unfolding sum_below
sum_below-ge zero f h = omega arith
sum_below-ge (suc n) f h =
    omega (arith, h n (omega arith), sum_below-ge n f (λ v lt. h v (omega arith)))
