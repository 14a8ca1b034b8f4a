-- ===== src/BeaconNode/Seen.antt =====
-- The sets of the beacon node: the slots of the blocks and the validators of the attestations.
use gossipsub_testground.Base.{
  ℕ, ◌≡◌, refl, sym, ap, ◌∙◌, inl, inr, List, [], ◌∷◌, Option, none, some, Bool, true, false,
  Outcome, expect, >>=-eq-ok, String, ◌&&◌, ◌||◌, ok, ◌==◌, if◌then◌else◌, arith, Bool-cases,
}
use gossipsub_testground.Base.Maps.{get, get-insert, elem, set_insert}
use gossipsub_testground.Metrics.Model.{Never}
use gossipsub_testground.BeaconNode.{
  slots_per_epoch, Topic, blocks, attestations, aggregates, sync_messages,
  signed_contribution_and_proof, Serde, Epochs, or_default, push_entry, insert_entry, modify_at,
  Received, receive, Event, message, other, handle_gossipsub_event, handle_events,
}

ok-inj : {E A : Type 0} {a b : A} → ◌≡◌ {A = Outcome E A} (ok a) (ok b) → a ≡ b
ok-inj h = cc

expect-ok :
    {A : Type 0} (o : Option A) {a : A} → ◌≡◌ {A = Outcome Never A} (expect o) (ok a) → o ≡ some a
expect-ok none h = absurd cc
expect-ok (some x) h = ap some (ok-inj h)

-- Adding to a set adds the element and takes nothing out.
pub elem-set_insert : (y x : ℕ) (s : List ℕ) → elem y (set_insert x s) ≡ (elem y s || y == x)
unfolding set_insert
elem-set_insert y x s = elim (Bool-cases (elem x s)) [
  | inl inside ↦ elim (Bool-cases (y == x)) [
    | inl eq ↦ let same : y ≡ x = ground arith in ground (arith, inside, same)
    | inr ne ↦ ground (arith, inside)
  ]
  | inr outside ↦ ground (arith, outside)
]

pub elem-insert_entry :
    (y e epoch x : ℕ) (m : Epochs)
    → elem y (or_default (get e (insert_entry epoch x m)))
      ≡ (elem y (or_default (get e m)) || (e == epoch && y == x))
unfolding insert_entry
elem-insert_entry y e epoch x m = ground (
  arith,
  get-insert e epoch (set_insert x (or_default (get epoch m))) m,
  elem-set_insert y x (or_default (get epoch m)),
)

abbrev is_block : Topic → Bool
is_block blocks = true
is_block _ = false

receive-blocks :
    (t : Topic) (x slot epoch : ℕ) (s s' : Received)
    → receive t x slot epoch s ≡ ok s'
    → s'.received_beacon_blocks ≡ (
        if is_block t
        then insert_entry epoch slot s.received_beacon_blocks
        else s.received_beacon_blocks)
unfolding receive
receive-blocks blocks x slot epoch s s' e = let same : s' ≡ _ = sym (ok-inj e) in rw same refl
receive-blocks (aggregates i) x slot epoch s s' e =
    let (t, made, rest) =
      >>=-eq-ok (expect (modify_at i (push_entry epoch x) s.received_aggregates)) _ e in
    rw (sym (ok-inj rest)) refl
receive-blocks (attestations i) x slot epoch s s' e =
    let (t, made, rest) =
      >>=-eq-ok (expect (modify_at i (insert_entry epoch x) s.received_attestations)) _ e in
    rw (sym (ok-inj rest)) refl
receive-blocks (signed_contribution_and_proof i) x slot epoch s s' e =
    let (t, made, rest) =
      >>=-eq-ok (expect (modify_at i (push_entry epoch x) s.received_sync_committee_aggregates)) _
        e in
    rw (sym (ok-inj rest)) refl
receive-blocks (sync_messages i) x slot epoch s s' e =
    let (t, made, rest) =
      >>=-eq-ok (expect (modify_at i (push_entry epoch x) s.received_sync_committee_messages)) _
        e in
    rw (sym (ok-inj rest)) refl

module _ (serde : Serde) where
  -- The event is a block of the slot, and the slot is in the epoch.
  abbrev is_block_of : ℕ → ℕ → Option Topic → Option (ℕ × ℕ × String) → Bool
  is_block_of e y (some t) (some (x, slot, _)) =
      is_block t && (e == serde.epoch slot slots_per_epoch && y == slot)
  is_block_of e y (some t) none = false
  is_block_of e y none v = false

  abbrev pub has_block : ℕ → ℕ → List (Event serde) → Bool
  has_block e y [] = false
  has_block e y (other ∷ r) = has_block e y r
  has_block e y (message topic data_ ∷ r) =
      is_block_of e y (serde.topic_of topic) (serde.decode data_) || has_block e y r

  abbrev pub has_slot : ℕ → ℕ → Received → Bool
  has_slot e y s = elem y (or_default (get e s.received_beacon_blocks))

  or_assoc : (a b c : Bool) → ((a || b) || c) ≡ (a || (b || c))
  or_assoc true b c = refl
  or_assoc false b c = refl

  receive-has_slot :
      (t : Topic) (x slot : ℕ) (p : String) (s s' : Received) (e y : ℕ)
      → receive t x slot (serde.epoch slot slots_per_epoch) s ≡ ok s'
      → has_slot e y s' ≡ (has_slot e y s || is_block_of e y (some t) (some (x, slot, p)))
  receive-has_slot t x slot p s s' e y h =
      rw (receive-blocks t x slot (serde.epoch slot slots_per_epoch) s s' h) (
        ground (
          arith,
          elem-insert_entry y e (serde.epoch slot slots_per_epoch) slot s.received_beacon_blocks,
        ))

  -- If the node handles the events without a panic, then it has a slot under an epoch exactly if it
  -- had it before, or one of the events is a block of that slot and the slot is in that epoch.
  pub handle_events-blocks :
      (es : List (Event serde)) (s s' : Received) (e y : ℕ)
      → handle_events serde es s ≡ ok s'
      → has_slot e y s' ≡ (has_slot e y s || has_block e y es)
  unfolding handle_events handle_gossipsub_event
  handle_events-blocks [] s s' e y h = rw (sym (ok-inj h)) (ground arith)
  handle_events-blocks (other ∷ es) s s' e y h = handle_events-blocks es s s' e y h
  handle_events-blocks (message topic data_ ∷ es) s s' e y h =
      let (m, one, rest) = >>=-eq-ok (handle_gossipsub_event serde (message topic data_) s) _ h in
      let (t, parsed, one') = >>=-eq-ok (expect (serde.topic_of topic)) _ one in
      let (v, decoded, one'') = >>=-eq-ok (expect (serde.decode data_)) _ one' in
      handle_events-blocks es m s' e y rest
      ∙ ap (λ b. b || has_block e y es) (receive-has_slot t v.0 v.1 v.2 s m e y one'')
      ∙ or_assoc (has_slot e y s) _ (has_block e y es)
      ∙ ap (λ b. has_slot e y s || (b || has_block e y es))
          (rw (expect-ok (serde.topic_of topic) parsed, expect-ok (serde.decode data_) decoded)
            refl)
