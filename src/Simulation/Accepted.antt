-- ===== src/Simulation/Accepted.antt =====
-- The received messages against those accepted and those that wait.
use gossipsub_testground.Base.{
  ℕ, zero, suc, ◌+◌, ◌*◌, ◌<◌, ◌≡◌, refl, ◌≢◌, subst, List, [], ◌∷◌, Option, none, some,
  Option-cases, inl, inr, length, length-append, word, arith,
}
use gossipsub_testground.Base.Counting.{count}
use gossipsub_testground.Simulation.Validation.{
  Pending, Event, message, other, expired, Validation, take_out, behind, accept, custom_validation,
  handle_event, handle_events, to_be_bytes, published_data,
}

abbrev pub ids : List Pending → List ℕ
ids [] = []
ids (p ∷ ps) = p.message_id ∷ ids ps

-- The messages among the events.
abbrev pub received : List Event → List ℕ
received [] = []
received (message message_id peer_id msg_size ∷ events) = message_id ∷ received events
received (other ∷ events) = received events
received (expired place ∷ events) = received events

pub some-inj : {A : Type 0} {x y : A} → ◌≡◌ {A = Option A} (some x) (some y) → x ≡ y
some-inj h = cc

pub none_some : {A : Type 0} (x : A) → ◌≢◌ {A = Option A} none (some x)
none_some x h = absurd cc

-- How often a message is accepted or still waits.
abbrev pub known : ℕ → Validation → ℕ
known v state = count v state.accepted + count v (ids state.messages_to_validate)

-- The entry taken out and the others are the queue.
abbrev Splits : ℕ → List Pending → Option (Pending × List Pending) → Type 0
Splits v ps none = Unit
Splits v ps (some (p, rest)) = count v (ids ps) ≡ count v (p.message_id ∷ ids rest)

behind-Splits :
    (v : ℕ) (q : Pending) (ps : List Pending) (o : Option (Pending × List Pending))
    → Splits v ps o
    → Splits v (q ∷ ps) (behind q o)
behind-Splits v q ps none h = tt
behind-Splits v q ps (some (p, rest)) h = omega (arith, h)

take_out-Splits : (v place : ℕ) (ps : List Pending) → Splits v ps (take_out place ps)
take_out-Splits v place [] = tt
take_out-Splits v zero (p ∷ ps) = refl
take_out-Splits v (suc place) (p ∷ ps) =
    behind-Splits v p ps (take_out place ps) (take_out-Splits v place ps)

accept-known :
    (v : ℕ) (accepted : List ℕ) (ps : List Pending) (o : Option (Pending × List Pending))
    (t : Validation)
    → Splits v ps o
    → accept accepted o ≡ some t
    → known v t ≡ count v accepted + count v (ids ps)
accept-known v accepted ps none t splits h = absurd cc
accept-known v accepted ps (some (p, rest)) t splits h =
    let same : record { messages_to_validate = rest; accepted = p.message_id ∷ accepted } ≡ t =
      some-inj h in
    subst (λ u. known v u ≡ count v accepted + count v (ids ps)) same (omega (arith, splits))

module _ (sample : ℕ → ℕ) where
  handle_event-known :
      (v : ℕ) (event : Event) (s t : Validation)
      → handle_event sample event s ≡ some t
      → known v t ≡ known v s + count v (received (event ∷ []))
  unfolding handle_event custom_validation
  handle_event-known v (message message_id peer_id msg_size) s t h =
      subst (λ u. known v u ≡ known v s + count v (message_id ∷ [])) (some-inj h) (omega arith)
  handle_event-known v other s t h =
      subst (λ u. known v u ≡ known v s + 0) (some-inj h) (omega arith)
  handle_event-known v (expired place) s t h = omega (
    arith,
    accept-known v s.accepted s.messages_to_validate (take_out place s.messages_to_validate) t
        (take_out-Splits v place s.messages_to_validate) h,
  )

  received-cons :
      (v : ℕ) (event : Event) (events : List Event)
      → count v (received (event ∷ events))
        ≡ count v (received (event ∷ [])) + count v (received events)
  received-cons v (message message_id peer_id msg_size) events = omega arith
  received-cons v other events = omega arith
  received-cons v (expired place) events = omega arith

  -- Over any events that the loop can take, a message is accepted or waits in the delay queue as
  -- often as before, and once more for each time that it was received.
  pub handle_events-known :
      (v : ℕ) (events : List Event) (s t : Validation)
      → handle_events sample events s ≡ some t
      → known v t ≡ known v s + count v (received events)
  unfolding handle_events
  handle_events-known v [] s t h = subst (λ u. known v u ≡ known v s + 0) (some-inj h) (omega arith)
  handle_events-known v (event ∷ events) s t h = elim (Option-cases (handle_event sample event s)) [
    | inl disabled ↦ absurd (none_some t (rw (disabled, handle_events) at h))
    | inr (next, made) ↦ omega (
      arith,
      handle_events-known v events next t (rw (made, handle_events) at h),
      handle_event-known v event s next made,
      received-cons v event events,
    )
  ]

-- The validator is read back from the published data.
abbrev of_be_bytes : ℕ → List ℕ → ℕ
of_be_bytes n [] = n
of_be_bytes n (b ∷ bs) = of_be_bytes (n * 256 + b) bs

pub published_data-validator :
    (validator : ℕ) (payload : List ℕ)
    → validator < word
    → (of_be_bytes 0 (to_be_bytes validator) ≡ validator)
      × (length (published_data validator payload) ≡ length payload + 8)
unfolding to_be_bytes published_data
published_data-validator validator payload fits =
    (omega arith, length-append payload (to_be_bytes validator))
