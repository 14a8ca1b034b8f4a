-- ===== src/Attacker/Behaviour/Silence.antt =====
-- What an attacker queues and returns at one call holds no message and no subscription.
use gossipsub_testground.Base.{
  ℕ, zero, suc, ◌<◌, ◌≡◌, refl, subst, sym, ◌∙◌, ◌⊎◌, inl, inr, List, [], ◌∷◌, ◌++◌, map, Option,
  none, some, Bool, Outcome, ok, is_empty, if◌then◌else◌, All, All-append, arith,
}
use gossipsub_testground.Attacker.Wire.{
  Wire, Rpc, Codec, Poll, ready_key, ready_error, ready_none, pending, DelaySet, IsDelaySet,
}
use gossipsub_testground.Attacker.Fragment.{PublishError}
use gossipsub_testground.Attacker.Fragment.Contents.{gather}
use gossipsub_testground.Attacker.Fragment.Errors.{fragment_message_control}
use gossipsub_testground.Attacker.Fragment.Lossless.{fragment_message_lossless}
use gossipsub_testground.Attacker.Behaviour.{
  GossipsubSubscription, GossipsubRpc, HandlerEvent, message, peer_kind, Action, Key,
  MaliciousBehaviour, IsProtobuf, graft_rpc, topics_to_graft, prune_msgs, send_or_log,
  handle_received_subscriptions, inject_event, regraft_round, poll_regraft, poll,
}
use gossipsub_testground.Attacker.Behaviour.Grafts.{send_or_log-ok}
use gossipsub_testground.Attacker.Behaviour.Regraft.{
  handle_prune_lem, AreNear, no_prunes, no_subscriptions,
}
use gossipsub_testground.Attacker.Behaviour.Polls.{shrinks}

-- The RPC has no message and no subscription: what is left is its control message.
abbrev pub IsSilent : {w : Wire} → Action w → Type 0
IsSilent a = (a.event.publish ≡ []) × (a.event.subscriptions ≡ [])

abbrev pub IsSilentOption : {w : Wire} → Option (Action w) → Type 0
IsSilentOption none = Unit
IsSilentOption (some a) = IsSilent a

-- Nothing else is queued.
abbrev pub Silent : {w : Wire} {d : DelaySet (Key w)} → MaliciousBehaviour w d → Type 0
Silent s = All IsSilent s.events

append_nil_left : {A : Type 0} (xs ys : List A) → xs ++ ys ≡ [] → xs ≡ []
append_nil_left [] ys h = refl
append_nil_left (x ∷ xs) ys h = absurd cc

append_nil_right : {A : Type 0} (xs ys : List A) → xs ++ ys ≡ [] → ys ≡ []
append_nil_right [] ys h = h
append_nil_right (x ∷ xs) ys h = absurd cc

module _ {w : Wire} {same : Key w → Key w → Bool} {d : DelaySet (Key w)} (set : IsDelaySet same d)
    (codec : Codec w) {into_protobuf : GossipsubRpc w → Rpc w} {graft_of : w.TopicHash → w.Graft}
    (lawful : IsProtobuf into_protobuf graft_of) where
  rpcs-IsSilent :
      (peer : w.PeerId) (rs : List (Rpc w))
      → gather (λ r. r.publish) rs ≡ []
      → gather (λ r. r.subscriptions) rs ≡ []
      → All IsSilent (map (λ m. record { peer_id = peer; event = m }) rs)
  unfolding gather
  rpcs-IsSilent peer [] h k = tt
  rpcs-IsSilent peer (r ∷ rs) h k = (
    (
      append_nil_left r.publish (gather (λ r. r.publish) rs) h,
      append_nil_left r.subscriptions (gather (λ r. r.subscriptions) rs) k,
    ),
    rpcs-IsSilent peer rs (append_nil_right r.publish (gather (λ r. r.publish) rs) h)
        (append_nil_right r.subscriptions (gather (λ r. r.subscriptions) rs) k),
  )

  send_or_log-Silent :
      (peer : w.PeerId) (ts : List w.TopicHash) (s : MaliciousBehaviour w d)
      → Silent s
      → (s' : MaliciousBehaviour w d) × (send_or_log d codec into_protobuf peer
            (into_protobuf (graft_rpc ts))
            s
          ≡ ok s')
        × Silent s'
        × (s'.regraft ≡ s.regraft)
  send_or_log-Silent peer ts s silent =
      let rpc = into_protobuf (graft_rpc ts) in
      let (rs, e) =
        fragment_message_control codec rpc (lawful.no_publish ts) (lawful.no_subscriptions ts) in
      let (messages, subscriptions, _, _, _, _) = fragment_message_lossless codec rpc rs e in
      let actions = map (λ m. record { peer_id = peer; event = m }) rs in
      (
        record s { events = s.events ++ actions },
        send_or_log-ok d codec lawful peer rpc rs s e,
        All-append IsSilent s.events actions silent (
            rpcs-IsSilent peer rs (messages ∙ lawful.no_publish ts)
              (subscriptions ∙ lawful.no_subscriptions ts)),
        refl,
      )

  subscriptions-Silent :
      (ts : List w.TopicHash) (source : w.PeerId) (s : MaliciousBehaviour w d)
      → Silent s
      → (s' : MaliciousBehaviour w d) × ((if is_empty ts
            then ok s
            else send_or_log d codec into_protobuf source (into_protobuf (graft_rpc ts)) s)
          ≡ ok s')
        × Silent s'
  subscriptions-Silent [] source s silent = (s, refl, silent)
  subscriptions-Silent (t ∷ ts) source s silent =
      let (s', sent, kept, _) = send_or_log-Silent source (t ∷ ts) s silent in (s', sent, kept)

  received-Silent :
      (source : w.PeerId) (subs : List (GossipsubSubscription w)) (s : MaliciousBehaviour w d)
      → Silent s
      → (s' : MaliciousBehaviour w d) × (handle_received_subscriptions d codec into_protobuf subs
            source s
          ≡ ok s')
        × Silent s'
  unfolding handle_received_subscriptions
  received-Silent source subs s silent = subscriptions-Silent (topics_to_graft subs) source s silent

  -- The set accepts the delays that an event asks for.
  abbrev pub HasNear : HandlerEvent w → Type 0
  HasNear peer_kind = Unit
  HasNear (message rpc) = AreNear set rpc.control_msgs

  pub inject_event-Silent :
      (source : w.PeerId) (event : HandlerEvent w) (s : MaliciousBehaviour w d)
      → HasNear event
      → Silent s
      → (s' : MaliciousBehaviour w d) × (inject_event d codec into_protobuf source event s ≡ ok s')
        × Silent s'
  unfolding inject_event
  inject_event-Silent source peer_kind s near silent = (s, refl, silent)
  inject_event-Silent source (message rpc) s near silent =
      let (m, e, kept) = received-Silent source rpc.subscriptions s silent in
      let (s', done, (same_events, _)) = handle_prune_lem set source rpc.control_msgs m near in
      (
        s',
        rw (no_subscriptions set codec lawful source rpc.subscriptions s, e)
            (no_prunes set source (prune_msgs rpc.control_msgs) m ∙ done),
        subst (All IsSilent) (sym same_events) kept,
      )

  abbrev Ends : Option (Outcome PublishError (MaliciousBehaviour w d)) → Type 0
  Ends o = (s' : MaliciousBehaviour w d) × (o ≡ some (ok s')) × Silent s'

  regraft_round-Silent :
      (answer : Poll (Key w))
      (rest : MaliciousBehaviour w d → Option (Outcome PublishError (MaliciousBehaviour w d)))
      (s : MaliciousBehaviour w d)
      → Silent s
      → (((k : Key w) × (answer ≡ ready_key k)) ⊎ (answer ≡ ready_error)
          → (m : MaliciousBehaviour w d) → m.regraft ≡ s.regraft
          → Silent m
          → Ends (rest m))
      → Ends (regraft_round d codec into_protobuf answer rest s)
  unfolding regraft_round
  regraft_round-Silent (ready_key k) rest s silent more =
      let (m, sent, quiet, kept) = send_or_log-Silent k.0 (k.1 ∷ []) s silent in
      let (s', done, last) = more (inl (k, refl)) m kept quiet in
      (s', rw (regraft_round, sent) done, last)
  regraft_round-Silent ready_error rest s silent more = more (inr refl) s refl silent
  regraft_round-Silent ready_none rest s silent more = (s, refl, silent)
  regraft_round-Silent pending rest s silent more = (s, refl, silent)

  poll_regraft-Silent :
      (fuel now : ℕ) (s : MaliciousBehaviour w d)
      → set.size s.regraft < fuel
      → Silent s
      → Ends (poll_regraft d codec into_protobuf fuel now s)
  unfolding poll_regraft
  poll_regraft-Silent zero now s h silent = absurd (omega (arith, h))
  poll_regraft-Silent (suc fuel) now s h silent =
      regraft_round-Silent (d.poll_next now s.regraft).0
        (λ m. poll_regraft d codec into_protobuf fuel now m)
        (record s { regraft = (d.poll_next now s.regraft).1 }) silent
        (λ goes_on m kept quiet.
          poll_regraft-Silent fuel now m
            (rw kept (omega (arith, shrinks set codec lawful now s.regraft goes_on, h))) quiet)

  pub poll-Silent :
      (fuel now : ℕ) (events : List (Action w)) (q : d.Set)
      → set.size q < fuel
      → All IsSilent events
      → (a : Option (Action w)) × (s' : MaliciousBehaviour w d) × (poll d codec into_protobuf fuel
            now
            (record { events = events; regraft = q })
          ≡ some (ok (a, s')))
        × IsSilentOption a
        × Silent s'
  unfolding poll
  poll-Silent fuel now (e ∷ es) q h silent =
      (some e, record { events = es; regraft = q }, refl, silent.0, silent.1)
  poll-Silent fuel now [] q h silent =
      let (s', ended, quiet) =
        poll_regraft-Silent fuel now (record { events = []; regraft = q }) h tt in
      (none, s', rw (ended, poll) refl, tt, quiet)
