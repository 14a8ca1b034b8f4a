-- ===== src/Base/Decimal.antt =====
-- Texts as lists of code points: `Display` and `FromStr` of `u64`, and `rsplit_once`.
use Prim.Native.Nat.{ℕ, zero, suc, ◌+◌, ◌-◌, ◌*◌, ◌/◌, ◌%◌, ◌≤◌, ◌<◌}
use Prim.Native.Char.{code}
use Prim.Native.String.{String}
use mathlib.Core.Path.{◌≡◌, refl, ◌∙◌}
use mathlib.Core.Bool.{Bool, true, false, ◌&&◌}
use mathlib.Core.Logic.{inl, inr}
use mathlib.Core.List.{List, [], ◌∷◌, ◌++◌}
use mathlib.Core.Option.{Option, none, some}
use native.Mathlib.Omega.{arith}
use gossipsub_testground.Base.Tests.{ltb, leb, ◌==◌, if◌then◌else◌, Bool-cases}
use gossipsub_testground.Base.Lists.{All}
use gossipsub_testground.Base.Words.{word}

abbrev pub codes : String → List ℕ
codes String.[] = []
codes (String.◌∷◌ c s) = code c ∷ codes s

-- The digits of `n` in front of a text. Each round divides by ten, so that `n + 1` rounds are enough.
unfoldable pub digits_onto : (fuel n : ℕ) → List ℕ → List ℕ
digits_onto zero n out = out
digits_onto (suc fuel) n out =
    let more = digits_onto fuel (n / 10) ((b'0' + n % 10) ∷ out) in
    if ltb n 10 then (b'0' + n) ∷ out else more

unfoldable pub to_string : ℕ → List ℕ
unfolding digits_onto
to_string n = digits_onto (suc n) n []

-- `checked_mul` and `checked_add` digit by digit.
unfoldable pub parse_from : List ℕ → ℕ → Option ℕ
parse_from [] n = some n
parse_from (c ∷ cs) n =
    let next = n * 10 + (c - b'0') in
    let rest = parse_from cs next in
    if leb b'0' c && leb c b'9' && ltb next word then rest else none

unfoldable pub parse_digits : List ℕ → Option ℕ
unfolding parse_from
parse_digits [] = none
parse_digits (c ∷ cs) = parse_from (c ∷ cs) 0

-- A sign `+` may stand in front.
unfoldable pub parse_u64 : List ℕ → Option ℕ
unfolding parse_digits
parse_u64 [] = none
parse_u64 (c ∷ cs) = if c == b'+' then parse_digits cs else parse_digits (c ∷ cs)

abbrev pub equal : List ℕ → List ℕ → Bool
equal [] [] = true
equal [] (y ∷ ys) = false
equal (x ∷ xs) [] = false
equal (x ∷ xs) (y ∷ ys) = x == y && equal xs ys

-- `str::rsplit_once`: split at the last occurrence.
abbrev in_rest : (c x : ℕ) (xs : List ℕ) → Option (List ℕ × List ℕ) → Option (List ℕ × List ℕ)
in_rest c x xs (some (front, back)) = some (x ∷ front, back)
in_rest c x xs none = if x == c then some ([], xs) else none

unfoldable pub rsplit_once : ℕ → List ℕ → Option (List ℕ × List ℕ)
unfolding in_rest
rsplit_once c [] = none
rsplit_once c (x ∷ xs) = in_rest c x xs (rsplit_once c xs)

abbrev pub IsDigit : ℕ → Type 0
IsDigit c = (b'0' ≤ c) × (c ≤ b'9')

digits_onto-digits :
    (fuel n : ℕ) (out : List ℕ) → All IsDigit out → All IsDigit (digits_onto fuel n out)
unfolding digits_onto
digits_onto-digits zero n out h = h
digits_onto-digits (suc fuel) n out h = ground (
  arith,
  digits_onto-digits fuel (n / 10) ((b'0' + n % 10) ∷ out) ((omega arith, omega arith), h),
)

pub to_string-digits : (n : ℕ) → All IsDigit (to_string n)
unfolding to_string
to_string-digits n = digits_onto-digits (suc n) n [] tt

parse_from-digits :
    (fuel n : ℕ) (out : List ℕ)
    → n < fuel
    → n < word
    → parse_from (digits_onto fuel n out) 0 ≡ parse_from out n
unfolding digits_onto parse_from
parse_from-digits zero n out enough fits = absurd (omega arith)
parse_from-digits (suc fuel) n out enough fits =
    ground (arith, parse_from-digits fuel (n / 10) ((b'0' + n % 10) ∷ out))

digits_onto-ne-nil :
    (fuel n : ℕ) (out : List ℕ)
    → n < fuel
    → (c : ℕ) × (cs : List ℕ) × (digits_onto fuel n out ≡ c ∷ cs)
unfolding digits_onto
digits_onto-ne-nil zero n out enough = absurd (omega arith)
digits_onto-ne-nil (suc fuel) n out enough = elim (Bool-cases (ltb n 10)) [
  | inl last ↦ (b'0' + n, out, rw last refl)
  | inr more ↦
      let (c, cs, e) = digits_onto-ne-nil fuel (n / 10) ((b'0' + n % 10) ∷ out) (ground arith) in
      (c, cs, rw more e)
]

parse_u64-of_digits :
    (xs : List ℕ) {c : ℕ} {cs : List ℕ}
    → xs ≡ c ∷ cs
    → All IsDigit xs
    → parse_u64 xs ≡ parse_from xs 0
unfolding parse_u64
parse_u64-of_digits [] e digits = absurd cc
parse_u64-of_digits (x ∷ xs) e digits = ground arith

-- What `Display` prints, `FromStr` reads back.
pub parse_u64-to_string : (n : ℕ) → n < word → parse_u64 (to_string n) ≡ some n
unfolding to_string parse_from
parse_u64-to_string n fits =
    let (c, cs, e) = digits_onto-ne-nil (suc n) n [] (omega arith) in
    parse_u64-of_digits (digits_onto (suc n) n []) e (digits_onto-digits (suc n) n [] tt)
    ∙ parse_from-digits (suc n) n [] (omega arith) fits

rsplit_once-of_digits : (xs : List ℕ) → All IsDigit xs → rsplit_once b'/' xs ≡ none
unfolding rsplit_once
rsplit_once-of_digits [] digits = refl
rsplit_once-of_digits (x ∷ xs) digits = rw (rsplit_once-of_digits xs digits.1) (ground arith)

pub rsplit_once-to_string : (n : ℕ) → rsplit_once b'/' (to_string n) ≡ none
unfolding to_string
rsplit_once-to_string n =
    rsplit_once-of_digits (digits_onto (suc n) n []) (digits_onto-digits (suc n) n [] tt)

-- A text and a number behind a slash.
pub rsplit_once-number :
    (name : List ℕ) (n : ℕ)
    → rsplit_once b'/' (name ++ (b'/' ∷ to_string n)) ≡ some (name, to_string n)
unfolding rsplit_once
rsplit_once-number [] n = rw (rsplit_once-to_string n) refl
rsplit_once-number (x ∷ xs) n = rw (rsplit_once-number xs n) refl
