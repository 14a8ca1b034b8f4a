-- ===== src/Base/Results.antt =====
-- What a Rust function that returns `Result` can do: return `Ok`, return `Err`, or panic.
use mathlib.Core.Option.{Option, none, some}
use mathlib.Core.Path.{◌≡◌, refl}
use mathlib.Core.List.{List, [], ◌∷◌}

pub data Outcome {ℓ} (E : Type 0) (A : Type ℓ) : Type ℓ where
  panic : Outcome E A
  err : (reason : E) → Outcome E A
  ok : (value : A) → Outcome E A

-- The operator `?` of Rust; a panic goes through as well.
module _ {ℓ κ} {E : Type 0} {A : Type ℓ} {B : Type κ} where
  infixl 4 ◌>>=◌
  abbrev pub ◌>>=◌ : (first : Outcome E A) (next : A → Outcome E B) → Outcome E B
  panic >>= next = panic
  err reason >>= next = err reason
  ok value >>= next = next value

-- `Option::ok_or(e)?`
abbrev pub ok_or {ℓ} : {E : Type 0} {A : Type ℓ} → Option A → E → Outcome E A
ok_or (some value) reason = ok value
ok_or none reason = err reason

-- `Result::map_err`, and the conversion of an error by `?`.
abbrev pub map_err {ℓ} : {E F : Type 0} {A : Type ℓ} → (E → F) → Outcome E A → Outcome F A
map_err f panic = panic
map_err f (err reason) = err (f reason)
map_err f (ok value) = ok value

-- `Option::expect` and `Option::unwrap`.
abbrev pub expect {ℓ} : {E : Type 0} {A : Type ℓ} → Option A → Outcome E A
expect (some value) = ok value
expect none = panic

-- A function on each element in turn; the first failure is the outcome.
abbrev pub for_each {ℓ κ} :
    {E : Type 0} {A : Type ℓ} {B : Type κ} → (A → Outcome E B) → List A → Outcome E (List B)
for_each f [] = ok []
for_each f (x ∷ xs) = do y ← f x; ys ← for_each f xs; ok (y ∷ ys)

-- What an `ok` behind a `?` says of the two sides.
pub >>=-eq-ok {ℓ κ} :
    {E : Type 0} {A : Type ℓ} {B : Type κ} (first : Outcome E A) (next : A → Outcome E B)
    {result : B}
    → (first >>= next) ≡ ok result
    → (value : A) × (first ≡ ok value) × (next value ≡ ok result)
>>=-eq-ok panic next returned = absurd cc
>>=-eq-ok (err reason) next returned = absurd cc
>>=-eq-ok (ok value) next returned = (value, refl, returned)
