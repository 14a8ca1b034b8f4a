-- ===== src/Censoring/Honest.antt =====
-- Starting an honest peer of censoring/src/honest.rs: its parameters, and the peers that it dials.
use gossipsub_testground.Base.{
  ℕ, zero, suc, ◌≤◌, ◌<◌, ◌≡◌, refl, ap, ◌∙◌, ◌⊎◌, inl, inr, List, [], ◌∷◌, Bool, String, Outcome,
  panic, ok, ok_or, ◌>>=◌, if◌then◌else◌, ltb, ltb→lt, ◌&&◌, length, take, Bool-cases, arith,
}
use gossipsub_testground.Base.Counting.{count_if, count_if-perm, length-perm}
use gossipsub_testground.Base.Decimal.{parse_u64}
use gossipsub_testground.GenTopology.Rng.{Rng, IsLawful}
use gossipsub_testground.Metrics.Model.{Never}
use gossipsub_testground.Parameters.{InstanceParams, ParamError, not_specified, not_parsed}
use gossipsub_testground.Censoring.{is_honest, Peers, InstanceInfo}

-- Durations are in seconds.
pub record TestParams : Type 0 where
  pub peers_to_connect : ℕ
  pub message_rate : ℕ
  pub warmup : ℕ
  pub run : ℕ

-- A `ParseIntError` does not name the parameter; here it does.
abbrev number : String → InstanceParams → Outcome ParamError ℕ
number k instance_params = do
  text ← ok_or (instance_params k) (not_specified k)
  ok_or (parse_u64 text) (not_parsed k)

unfoldable pub new : InstanceParams → Outcome ParamError TestParams
new instance_params = do
  peers_to_connect ← number "peers_to_connect" instance_params
  message_rate ← number "message_rate" instance_params
  warmup ← number "warmup" instance_params
  run ← number "run" instance_params
  ok (record {
    peers_to_connect = peers_to_connect;
    message_rate = message_rate;
    warmup = warmup;
    run = run;
  })

module _ {ℓ} {A : Type ℓ} where
  -- `filter`
  abbrev pub filter : (A → Bool) → List A → List A
  filter p [] = []
  filter p (x ∷ xs) = let rest = filter p xs in if p x then x ∷ rest else rest

  -- `xs[..n]`, which panics if `n` is beyond the end.
  abbrev pub first : ℕ → List A → Outcome Never (List A)
  first n xs = if ltb (length xs) n then panic else ok (take n xs)

module _ (r : Rng) (peers : Peers) where
  unfoldable pub peers_to_dial :
      (global_seq peers_to_connect : ℕ)
      → List (InstanceInfo peers)
      → Outcome Never (List (InstanceInfo peers))
  peers_to_dial global_seq peers_to_connect participants =
      let honest = filter (λ info. is_honest info.role) participants in
      let (shuffled, _) = r.shuffle (InstanceInfo peers) (r.seed_from_u64 global_seq) honest in
      first peers_to_connect shuffled

module _ {A : Type 0} where
  length-filter : (p : A → Bool) (xs : List A) → length (filter p xs) ≡ count_if p xs
  length-filter p [] = refl
  length-filter p (x ∷ xs) = ground (arith, length-filter p xs)

  count_if-filter :
      (p q : A → Bool) (xs : List A) → count_if q (filter p xs) ≡ count_if (λ x. p x && q x) xs
  count_if-filter p q [] = refl
  count_if-filter p q (x ∷ xs) = ground (arith, count_if-filter p q xs)

  count_if-take : (p : A → Bool) (n : ℕ) (xs : List A) → count_if p (take n xs) ≤ count_if p xs
  count_if-take p zero xs = omega arith
  count_if-take p (suc n) [] = omega arith
  count_if-take p (suc n) (x ∷ xs) = omega (arith, count_if-take p n xs)

  length-take : (n : ℕ) (xs : List A) → n ≤ length xs → length (take n xs) ≡ n
  length-take zero xs le = refl
  length-take (suc n) [] le = absurd (omega arith)
  length-take (suc n) (x ∷ xs) le = ap suc (length-take n xs (omega arith))

module _ (r : Rng) (lawful : IsLawful r) (peers : Peers) where
  abbrev is_honest_info : InstanceInfo peers → Bool
  is_honest_info info = is_honest info.role

  -- With a lawful generator, an honest peer dials as many honest participants as asked for, none
  -- more often than it is among the participants, or panics if there are fewer.
  pub peers_to_dial_outcome :
      (global_seq peers_to_connect : ℕ) (participants : List (InstanceInfo peers))
      → ((count_if (λ info. is_honest info.role) participants < peers_to_connect)
          × (peers_to_dial r peers global_seq peers_to_connect participants ≡ panic))
        ⊎ ((dialed : List (InstanceInfo peers)) × (peers_to_dial r peers global_seq peers_to_connect
                participants
              ≡ ok dialed)
            × (length dialed ≡ peers_to_connect)
            × ((q : InstanceInfo peers → Bool)
                → count_if q dialed
                  ≤ count_if (λ info. is_honest info.role && q info) participants))
  unfolding peers_to_dial
  peers_to_dial_outcome global_seq n participants =
      let honest = filter is_honest_info participants in
      let shuffled = (r.shuffle (InstanceInfo peers) (r.seed_from_u64 global_seq) honest).0 in
      let permuted = lawful.shuffled (InstanceInfo peers) (r.seed_from_u64 global_seq) honest in
      let size : length shuffled ≡ count_if is_honest_info participants =
        length-perm permuted ∙ length-filter is_honest_info participants in
      elim (Bool-cases (ltb (length shuffled) n)) [
        | inl few ↦ inl (omega (arith, size, ltb→lt (length shuffled) n few), rw few refl)
        | inr enough ↦ inr (
          take n shuffled,
          rw enough refl,
          length-take n shuffled (ground arith),
          λ q. omega (
            arith,
            count_if-take q n shuffled,
            count_if-perm q permuted,
            count_if-filter is_honest_info q participants,
          ),
        )
      ]
