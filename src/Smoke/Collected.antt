-- ===== src/Smoke/Collected.antt =====
-- What `publish_and_collect` of smoke/src/main.rs returns, and the peer that an instance selects of it.
use gossipsub_testground.Base.{
  ℕ, ◌+◌, ◌<◌, ◌≡◌, ◌≢◌, refl, ◌⊎◌, inl, inr, List, [], ◌∷◌, ◌++◌, map, none, some, panic, ok, ◌==◌,
  ==_iff, if◌then◌else◌, length, Option-cases, arith,
}
use gossipsub_testground.Base.Counting.{count, count_if-perm, length-perm}
use gossipsub_testground.GenTopology.Rng.{Rng, IsLawful}
use gossipsub_testground.Smoke.{Item, text, collect, last, others_than, peer_to_dial}

-- Where the stream begins with as many infos as there are instances, these are returned in order.
pub collect_outcome :
    {A E : Type 0} (infos : List A) (later : List (Item A E))
    → collect (length infos) (map (λ info. text (some info)) infos ++ later) ≡ ok infos
unfolding collect
collect_outcome [] later = refl
collect_outcome (info ∷ infos) later = rw (collect_outcome infos later) refl

last-count : (xs : List ℕ) (x : ℕ) → last xs ≡ some x → 0 < count x xs
last-count [] x h = absurd cc
last-count (y ∷ []) x h = let same : y ≡ x = cc in ground (arith, (==_iff y x).1 same)
last-count (y ∷ z ∷ xs) x h = omega (arith, last-count (z ∷ xs) x h)

last-none : (xs : List ℕ) → last xs ≡ none → length xs ≡ 0
last-none [] h = refl
last-none (y ∷ []) h = absurd cc
last-none (y ∷ z ∷ xs) h = absurd (omega (arith, last-none (z ∷ xs) h))

count-others_than :
    (own v : ℕ) (xs : List ℕ) → count v (others_than own xs) ≡ (if v == own then 0 else count v xs)
count-others_than own v [] = ground arith
count-others_than own v (x ∷ xs) = ground (arith, count-others_than own v xs)

length-others_than :
    (own : ℕ) (xs : List ℕ) → length (others_than own xs) + count own xs ≡ length xs
length-others_than own [] = refl
length-others_than own (x ∷ xs) = ground (arith, length-others_than own xs)

-- An instance dials one of the others, or panics if all addresses are its own.
pub peer_to_dial_outcome :
    (r : Rng) (lawful : IsLawful r) (test_instance_count own : ℕ) (addresses : List ℕ)
    → ((count own addresses ≡ length addresses)
        × (peer_to_dial r test_instance_count own addresses ≡ panic))
      ⊎ ((peer : ℕ) × (peer_to_dial r test_instance_count own addresses ≡ ok peer)
          × (peer ≢ own)
          × (0 < count peer addresses))
unfolding peer_to_dial
peer_to_dial_outcome r lawful n own addresses =
    let others = others_than own addresses in
    let shuffled = (r.shuffle ℕ (r.seed_from_u64 n) others).0 in
    let permuted = lawful.shuffled ℕ (r.seed_from_u64 n) others in
    elim (Option-cases (last shuffled)) [
      | inl nobody ↦ inl (
        omega (
          arith,
          last-none shuffled nobody,
          length-perm permuted,
          length-others_than own addresses,
        ),
        rw nobody refl,
      )
      | inr (peer, selected) ↦
          let among : 0 < count peer others =
            omega
              (arith, last-count shuffled peer selected, count_if-perm (λ x. x == peer) permuted) in
          inr (
            peer,
            rw selected refl,
            λ same. ground (arith, count-others_than own peer addresses, (==_iff peer own).1 same),
            ground (arith, count-others_than own peer addresses),
          )
    ]
