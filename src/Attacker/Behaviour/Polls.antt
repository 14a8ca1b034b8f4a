-- ===== src/Attacker/Behaviour/Polls.antt =====
-- `poll` of the attackers: the queued actions come out first, and then the keys that are due are
-- grafted again.
use gossipsub_testground.Base.{
  ℕ, zero, suc, ◌<◌, ◌≡◌, refl, sym, ◌∙◌, ◌⊎◌, inl, inr, List, [], ◌∷◌, ◌++◌, map, length, Option,
  none, some, Bool, Outcome, ok, err, panic, arith, append-nil, append_assoc,
}
use gossipsub_testground.Attacker.Wire.{
  Wire, Rpc, Codec, Poll, ready_key, ready_error, ready_none, pending, DelaySet, IsDelaySet,
}
use gossipsub_testground.Attacker.Fragment.{PublishError}
use gossipsub_testground.Attacker.Behaviour.{
  GossipsubRpc, Action, Key, MaliciousBehaviour, IsProtobuf, regraft_round, poll_regraft, poll,
}
use gossipsub_testground.Attacker.Behaviour.Grafts.{sent_grafts, send_or_log-grafts}

unfoldable due_round : {K S : Type 0} → Poll K → List K × S → S → List K × S
due_round (ready_key k) rest s = (k ∷ rest.0, rest.1)
due_round ready_error rest s = rest
due_round ready_none rest s = ([], s)
due_round pending rest s = ([], s)

-- The keys that the polls of a set at one time return, up to the first answer that ends the loop.
unfoldable pub due_keys : {K : Type 0} (d : DelaySet K) → ℕ → ℕ → d.Set → List K × d.Set
unfolding due_round
due_keys d zero now s = ([], s)
due_keys d (suc fuel) now s =
    let (answer, s') = d.poll_next now s in due_round answer (due_keys d fuel now s') s'

-- A number of polls, and the actions that they return.
unfoldable pub polls :
    {w : Wire} (d : DelaySet (Key w)) (codec : Codec w) (into_protobuf : GossipsubRpc w → Rpc w)
    → ℕ
    → ℕ
    → ℕ
    → MaliciousBehaviour w d
    → Option (Outcome PublishError (List (Action w) × MaliciousBehaviour w d))
polls d codec into_protobuf fuel now zero s = some (ok ([], s))
polls d codec into_protobuf fuel now (suc n) s = elim (poll d codec into_protobuf fuel now s) [
  | none ↦ none
  | some panic ↦ some panic
  | some (err e) ↦ some (err e)
  | some (ok (a, s')) ↦ elim (polls d codec into_protobuf fuel now n s') [
    | none ↦ none
    | some panic ↦ some panic
    | some (err e) ↦ some (err e)
    | some (ok (actions, s'')) ↦ elim a [
      | none ↦ some (ok (actions, s''))
      | some x ↦ some (ok (x ∷ actions, s''))
    ]
  ]
]

-- As many polls as there are queued actions return these actions, in the order in which they were
-- queued, leave the queue empty and do not touch the keys to graft again.
pub polls_fifo :
    {w : Wire} (d : DelaySet (Key w)) (codec : Codec w) (into_protobuf : GossipsubRpc w → Rpc w)
    (fuel now : ℕ) (es : List (Action w)) (q : d.Set)
    → polls d codec into_protobuf fuel now (length es) (record { events = es; regraft = q })
      ≡ some (ok (es, record { events = []; regraft = q }))
unfolding polls poll
polls_fifo d codec into_protobuf fuel now [] q = refl
polls_fifo d codec into_protobuf fuel now (e ∷ es) q =
    rw (polls_fifo d codec into_protobuf fuel now es q) refl

module _ {w : Wire} {same : Key w → Key w → Bool} {d : DelaySet (Key w)} (set : IsDelaySet same d)
    (codec : Codec w) {into_protobuf : GossipsubRpc w → Rpc w} {graft_of : w.TopicHash → w.Graft}
    (lawful : IsProtobuf into_protobuf graft_of) where
  abbrev Sends :
      Option (Outcome PublishError (MaliciousBehaviour w d))
      → List (Key w) × d.Set
      → MaliciousBehaviour w d
      → Type 0
  Sends o due s =
      (s' : MaliciousBehaviour w d) × (o ≡ some (ok s'))
      × (s'.regraft ≡ due.1)
      × (sent_grafts s'.events ≡ sent_grafts s.events ++ map (λ k. (k.0, graft_of k.1)) due.0)

  regraft_round_lem :
      (answer : Poll (Key w))
      (rest : MaliciousBehaviour w d → Option (Outcome PublishError (MaliciousBehaviour w d)))
      (due : List (Key w) × d.Set) (s : MaliciousBehaviour w d)
      → (((k : Key w) × (answer ≡ ready_key k)) ⊎ (answer ≡ ready_error)
          → (m : MaliciousBehaviour w d) → m.regraft ≡ s.regraft
          → Sends (rest m) due m)
      → Sends (regraft_round d codec into_protobuf answer rest s) (due_round answer due s.regraft) s
  unfolding regraft_round due_round
  regraft_round_lem (ready_key k) rest due s more =
      let (m, sent, kept, queued) = send_or_log-grafts d codec lawful k.0 (k.1 ∷ []) s in
      let (s', done, left, others) = more (inl (k, refl)) m kept in
      (s', rw (regraft_round, sent) done, left, others ∙ simp (queued, append_assoc))
  regraft_round_lem ready_error rest due s more = more (inr refl) s refl
  regraft_round_lem ready_none rest due s more =
      (s, refl, refl, sym (append-nil (sent_grafts s.events)))
  regraft_round_lem pending rest due s more =
      (s, refl, refl, sym (append-nil (sent_grafts s.events)))

  pub shrinks :
      (now : ℕ) (q : d.Set)
      → ((k : Key w) × ((d.poll_next now q).0 ≡ ready_key k))
        ⊎ ((d.poll_next now q).0 ≡ ready_error)
      → set.size (d.poll_next now q).1 < set.size q
  shrinks now q (inl (k, e)) = set.size_of_key now q k e
  shrinks now q (inr e) = set.size_of_error now q e

  -- The loop of `poll` ends when its fuel is more than the number of keys that wait. It queues one
  -- GRAFT message for each key that is due at the time of the poll, in the order in which the set
  -- returns them and behind what is queued, and the set loses these keys.
  pub poll_regraft_grafts :
      (fuel now : ℕ) (s : MaliciousBehaviour w d)
      → set.size s.regraft < fuel
      → (s' : MaliciousBehaviour w d) × (poll_regraft d codec into_protobuf fuel now s
          ≡ some (ok s'))
        × (s'.regraft ≡ (due_keys d fuel now s.regraft).1)
        × (sent_grafts s'.events
            ≡ sent_grafts s.events
              ++ map (λ k. (k.0, graft_of k.1)) (due_keys d fuel now s.regraft).0)
  unfolding poll_regraft due_keys
  poll_regraft_grafts zero now s h = absurd (omega (arith, h))
  poll_regraft_grafts (suc fuel) now s h =
      regraft_round_lem (d.poll_next now s.regraft).0
        (λ m. poll_regraft d codec into_protobuf fuel now m)
        (due_keys d fuel now (d.poll_next now s.regraft).1)
        (record s { regraft = (d.poll_next now s.regraft).1 })
        (λ goes_on m kept. rw (sym kept) (
          poll_regraft_grafts fuel now m
            (rw kept (omega (arith, shrinks now s.regraft goes_on, h)))))
