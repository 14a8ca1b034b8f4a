-- ===== src/BeaconNode/Counts.antt =====
-- What the beacon node has of the validators whose messages it received, per subnet and epoch.
use gossipsub_testground.Base.{
  ℕ, zero, suc, ◌<◌, ◌≡◌, refl, sym, ap, ◌∙◌, List, [], ◌∷◌, ◌++◌, Option, none, some, Bool, true,
  false, ◌&&◌, length, get_elem?, ◌==◌, if◌then◌else◌, arith, append-nil,
}
use gossipsub_testground.Base.Maps.{get, get-insert}
use gossipsub_testground.BeaconNode.{Epochs, or_default, push_entry, modify_at}

entries : ℕ → Option Epochs → List ℕ
entries e none = []
entries e (some m) = or_default (get e m)

-- What stands at a subnet and an epoch.
unfoldable pub cell : ℕ → ℕ → List Epochs → List ℕ
unfolding entries
cell subnet e t = entries e (get_elem? t subnet)

unfoldable pub changed : Bool → (Epochs → Epochs) → Option Epochs → Option Epochs
changed true f (some m) = some (f m)
changed true f none = none
changed false f o = o

pub modify_at_lem :
    (i : ℕ) (f : Epochs → Epochs) (t : List Epochs)
    → i < length t
    → (t' : List Epochs) × (modify_at i f t ≡ some t')
      × (length t' ≡ length t)
      × ((s : ℕ) → get_elem? t' s ≡ changed (s == i) f (get_elem? t s))
unfolding modify_at changed
modify_at_lem i f [] lt = absurd (omega (arith, lt))
modify_at_lem zero f (m ∷ t) lt = (f m ∷ t, refl, refl, at_zero)
  where
    at_zero : (s : ℕ) → get_elem? (f m ∷ t) s ≡ changed (s == zero) f (get_elem? (m ∷ t) s)
    at_zero zero = refl
    at_zero (suc s) = ground arith
modify_at_lem (suc i) f (m ∷ t) lt =
    let (t', e, same, other_maps) = modify_at_lem i f t (omega (arith, lt)) in
    (m ∷ t', rw e refl, ap suc same, λ s. at_suc t' other_maps s)
  where
    at_suc :
        (t' : List Epochs)
        → ((s : ℕ) → get_elem? t' s ≡ changed (s == i) f (get_elem? t s))
        → (s : ℕ) → get_elem? (m ∷ t') s ≡ changed (s == suc i) f (get_elem? (m ∷ t) s)
    at_suc t' h zero = ground arith
    at_suc t' h (suc s) = ground (arith, h s)

entries-changed :
    (e ep x : ℕ) (b : Bool) (o : Option Epochs)
    → (b ≡ true → (m : Epochs) × (o ≡ some m))
    → entries e (changed b (push_entry ep x) o)
      ≡ entries e o ++ (if b && e == ep then x ∷ [] else [])
unfolding entries changed push_entry
entries-changed e ep x true none h = absurd (cc (h refl).1)
entries-changed e ep x true (some m) h =
    ground (
      arith,
      get-insert e ep (or_default (get ep m) ++ x ∷ []) m,
      append-nil (or_default (get e m)),
    )
entries-changed e ep x false o h = sym (append-nil (entries e o))

get_elem?-lt : (t : List Epochs) (i : ℕ) → i < length t → (m : Epochs) × (get_elem? t i ≡ some m)
get_elem?-lt [] i lt = absurd (omega (arith, lt))
get_elem?-lt (m ∷ t) zero lt = (m, refl)
get_elem?-lt (m ∷ t) (suc i) lt = get_elem?-lt t i (omega (arith, lt))

pub cell-push :
    (i ep x : ℕ) (t : List Epochs)
    → i < length t
    → (t' : List Epochs) × (modify_at i (push_entry ep x) t ≡ some t')
      × (length t' ≡ length t)
      × ((s e : ℕ) → cell s e t' ≡ cell s e t ++ (if s == i && e == ep then x ∷ [] else []))
unfolding cell
cell-push i ep x t lt =
    let (t', made, same, maps) = modify_at_lem i (push_entry ep x) t lt in
    (
      t',
      made,
      same,
      λ s e.
          ap (entries e) (maps s)
          ∙ entries-changed e ep x (s == i) (get_elem? t s) (λ h. there s h),
    )
  where
    there : (s : ℕ) → (s == i) ≡ true → (m : Epochs) × (get_elem? t s ≡ some m)
    there s h = get_elem?-lt t s (ground arith)
