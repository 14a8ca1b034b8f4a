-- ===== src/GenTopology/Generate/Assign/Cuts.antt =====
-- Sorting, and slices that lie one behind the other.
use gossipsub_testground.Base.{
  ℕ, zero, suc, ◌+◌, ◌≤◌, ◌<◌, ◌≡◌, refl, sym, ap, ◌∙◌, inl, inr, List, [], ◌∷◌, ◌++◌, true, false,
  arith, length, take, drop, ltb, ◌==◌, All, Bool-cases, append-nil, append_assoc,
}
use gossipsub_testground.Base.Counting.{count}
use gossipsub_testground.Base.Maps.{elem, ordered_insert, ordered_of, insert, collect_map}
use gossipsub_testground.Base.Sets.{elem-count}
use gossipsub_testground.GenTopology.Generate.Assign.{place, sort}

abbrev pub Sorted : List ℕ → Type 0
Sorted [] = Unit
Sorted (x ∷ xs) = All (λ y. x ≤ y) xs × Sorted xs

All-place : (P : ℕ → Type 0) (x : ℕ) (xs : List ℕ) → P x → All P xs → All P (place x xs)
unfolding place
All-place P x [] p h = (p, tt)
All-place P x (y ∷ ys) p h = elim (Bool-cases (ltb y x)) [
  | inl e ↦ rw e (h.0, All-place P x ys p h.1)
  | inr e ↦ rw e (p, h)
]

pub All-sort : (P : ℕ → Type 0) (xs : List ℕ) → All P xs → All P (sort xs)
unfolding sort
All-sort P [] h = tt
All-sort P (x ∷ xs) h = All-place P x (sort xs) h.0 (All-sort P xs h.1)

All-le_trans : (x y : ℕ) (xs : List ℕ) → x ≤ y → All (λ z. y ≤ z) xs → All (λ z. x ≤ z) xs
All-le_trans x y [] le h = tt
All-le_trans x y (z ∷ xs) le h = (omega arith, All-le_trans x y xs le h.1)

place-Sorted : (x : ℕ) (xs : List ℕ) → Sorted xs → Sorted (place x xs)
unfolding place
place-Sorted x [] s = (tt, tt)
place-Sorted x (y ∷ ys) s = elim (Bool-cases (ltb y x)) [
  | inl e ↦ rw e (All-place (λ z. y ≤ z) x ys (ground arith) s.0, place-Sorted x ys s.1)
  | inr e ↦ rw e ((ground arith, All-le_trans x y ys (ground arith) s.0), s)
]

pub sort-Sorted : (xs : List ℕ) → Sorted (sort xs)
unfolding sort
sort-Sorted [] = tt
sort-Sorted (x ∷ xs) = place-Sorted x (sort xs) (sort-Sorted xs)

count-place : (v x : ℕ) (xs : List ℕ) → count v (place x xs) ≡ count v (x ∷ xs)
unfolding place
count-place v x [] = refl
count-place v x (y ∷ ys) = ground (arith, count-place v x ys)

pub count-sort : (v : ℕ) (xs : List ℕ) → count v (sort xs) ≡ count v xs
unfolding sort
count-sort v [] = refl
count-sort v (x ∷ xs) = omega (arith, count-place v x (sort xs), count-sort v xs)

length-place : (x : ℕ) (xs : List ℕ) → length (place x xs) ≡ suc (length xs)
unfolding place
length-place x [] = refl
length-place x (y ∷ ys) = ground (arith, length-place x ys)

pub length-sort : (xs : List ℕ) → length (sort xs) ≡ length xs
unfolding sort
length-sort [] = refl
length-sort (x ∷ xs) = omega (arith, length-place x (sort xs), length-sort xs)

-- The last element of `c ∷ cs`.
unfoldable pub last_cut : ℕ → List ℕ → ℕ
last_cut c [] = c
last_cut c (d ∷ ds) = last_cut d ds

pub last_cut-ge :
    (v c : ℕ) (cs : List ℕ) → Sorted (c ∷ cs) → elem v (c ∷ cs) ≡ true → v ≤ last_cut c cs
unfolding last_cut
last_cut-ge v c [] s e = ground arith
last_cut-ge v c (d ∷ ds) s e = elim (Bool-cases (v == c)) [
  | inl here ↦ let k = last_cut-ge d d ds s.1 (ground arith) in ground (arith, k, s.0.0)
  | inr there ↦ last_cut-ge v d ds s.1 (ground arith)
]

pub last_cut-le : (n c : ℕ) (cs : List ℕ) → All (λ x. x ≤ n) (c ∷ cs) → last_cut c cs ≤ n
unfolding last_cut
last_cut-le n c [] h = h.0
last_cut-le n c (d ∷ ds) h = last_cut-le n d ds h.1

pub first_cut-zero : (c : ℕ) (cs : List ℕ) → Sorted (c ∷ cs) → elem 0 (c ∷ cs) ≡ true → c ≡ 0
first_cut-zero c [] s e = ground arith
first_cut-zero c (d ∷ ds) s e = ground (arith, first_cut-zero d ds s.1)

-- Slices.
pub drop-nil : (n : ℕ) → drop {A = ℕ} n [] ≡ []
drop-nil zero = refl
drop-nil (suc n) = refl

pub take-nil : (n : ℕ) → take {A = ℕ} n [] ≡ []
take-nil zero = refl
take-nil (suc n) = refl

pub drop-drop : (a c : ℕ) (xs : List ℕ) → drop a (drop c xs) ≡ drop (c + a) xs
drop-drop a zero xs = ground arith
drop-drop a (suc c) [] = drop-nil a ∙ sym (drop-nil (suc c + a))
drop-drop a (suc c) (x ∷ xs) =
    let e : suc c + a ≡ suc (c + a) = omega arith in rw e (drop-drop a c xs)

pub count-take-add :
    (v a b : ℕ) (xs : List ℕ)
    → count v (take (a + b) xs) ≡ count v (take a xs) + count v (take b (drop a xs))
count-take-add v zero b xs = ground arith
count-take-add v (suc a) b [] = let e : suc a + b ≡ suc (a + b) = omega arith in rw (e, take-nil b)
count-take-add v (suc a) b (x ∷ xs) =
    let e : suc a + b ≡ suc (a + b) = omega arith in rw e (omega (arith, count-take-add v a b xs))

pub count-take-le : (v n : ℕ) (xs : List ℕ) → count v (take n xs) ≤ count v xs
count-take-le v zero xs = omega arith
count-take-le v (suc n) [] = omega arith
count-take-le v (suc n) (x ∷ xs) = omega (arith, count-take-le v n xs)

pub count-drop-le : (v n : ℕ) (xs : List ℕ) → count v (drop n xs) ≤ count v xs
count-drop-le v zero xs = omega arith
count-drop-le v (suc n) [] = omega arith
count-drop-le v (suc n) (x ∷ xs) = omega (arith, count-drop-le v n xs)

count-ordered_insert :
    (v x : ℕ) (xs : List ℕ) → elem x xs ≡ false → count v (ordered_insert x xs) ≡ count v (x ∷ xs)
unfolding ordered_insert
count-ordered_insert v x [] e = refl
count-ordered_insert v x (y ∷ ys) e = ground (arith, count-ordered_insert v x ys)

pub count-ordered_of :
    (v : ℕ) (xs : List ℕ) → ((w : ℕ) → count w xs ≤ 1) → count v (ordered_of xs) ≡ count v xs
unfolding ordered_of
count-ordered_of v [] h = refl
count-ordered_of v (x ∷ xs) h =
    let once = λ (w : ℕ). let k : count w xs ≤ 1 = ground (arith, h w) in k in
    ground (
      arith,
      h x,
      count-ordered_insert v x (ordered_of xs),
      elem-count x (ordered_of xs),
      count-ordered_of x xs once,
      count-ordered_of v xs once,
    )

-- The keys that `enumerate` gives to entries: `i`, `i + 1` and so on.
abbrev pub IsNumbered : ℕ → List (ℕ × List ℕ) → Type 0
IsNumbered i [] = Unit
IsNumbered i (e ∷ es) = (e.0 ≡ i) × IsNumbered (suc i) es

abbrev pub HasKeysBelow : ℕ → List (ℕ × List ℕ) → Type 0
HasKeysBelow i = All (λ e. e.0 < i)

HasKeysBelow-insert :
    (i k : ℕ) (w : List ℕ) (m : List (ℕ × List ℕ))
    → k < i
    → HasKeysBelow i m
    → HasKeysBelow i (insert k w m)
unfolding insert
HasKeysBelow-insert i k w [] lt h = (lt, tt)
HasKeysBelow-insert i k w ((j, u) ∷ m) lt h = ground (arith, HasKeysBelow-insert i k w m lt h.1)

HasKeysBelow-suc : (i : ℕ) (m : List (ℕ × List ℕ)) → HasKeysBelow i m → HasKeysBelow (suc i) m
HasKeysBelow-suc i [] h = tt
HasKeysBelow-suc i (e ∷ m) h = (omega arith, HasKeysBelow-suc i m h.1)

-- An insertion above all keys goes behind all entries.
insert_above :
    (k : ℕ) (w : List ℕ) (m : List (ℕ × List ℕ))
    → HasKeysBelow k m
    → insert k w m ≡ m ++ (k, w) ∷ []
unfolding insert
insert_above k w [] h = refl
insert_above k w ((j, u) ∷ m) h = ground (arith, insert_above k w m h.1)

pub collect_map_numbered :
    (i : ℕ) (m es : List (ℕ × List ℕ))
    → HasKeysBelow i m
    → IsNumbered i es
    → collect_map m es ≡ m ++ es
unfolding collect_map
collect_map_numbered i m [] h n = sym (append-nil m)
collect_map_numbered i m ((k, w) ∷ es) h n = rw n.0 (
    collect_map_numbered (suc i) (insert i w m) es
      (HasKeysBelow-insert (suc i) i w m (omega arith) (HasKeysBelow-suc i m h)) n.1
    ∙ rw (insert_above i w m h) (append_assoc m _ es))

pub IsNumbered-below :
    (i n : ℕ) (es : List (ℕ × List ℕ)) → i + length es ≤ n → IsNumbered i es → HasKeysBelow n es
IsNumbered-below i n [] le h = tt
IsNumbered-below i n (e ∷ es) le h = (omega arith, IsNumbered-below (suc i) n es (omega arith) h.1)

pub take-length : (xs : List ℕ) → take (length xs) xs ≡ xs
take-length [] = refl
take-length (x ∷ xs) = ap (◌∷◌ x) (take-length xs)
