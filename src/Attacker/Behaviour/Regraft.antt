-- ===== src/Attacker/Behaviour/Regraft.antt =====
-- When the attackers graft themselves again after a PRUNE, and what a received RPC does as a whole.
use gossipsub_testground.Base.{
  ℕ, ◌≤◌, ◌≡◌, refl, ◌∙◌, List, [], ◌∷◌, Option, none, some, Bool, ok, is_empty, if◌then◌else◌,
  wrapping_add,
}
use gossipsub_testground.Attacker.Wire.{Wire, Rpc, Codec, DelaySet, IsDelaySet}
use gossipsub_testground.Attacker.Behaviour.{
  prune_backoff_delay, ControlAction, i_have, i_want, graft_topic, prune_topic,
  GossipsubSubscription, GossipsubRpc, Key, PruneData, MaliciousBehaviour, IsProtobuf,
  topics_to_graft, prune_msgs, handle_prune, handle_received_subscriptions,
}

-- The delay that a list of PRUNE messages from a peer leaves a key: that of the last one that is
-- about the key, and the old one if none is.
unfoldable pub delay_after :
    {w : Wire}
    → (Key w → Key w → Bool)
    → ℕ
    → w.PeerId
    → Key w
    → List (ControlAction w)
    → Option ℕ
    → Option ℕ
delay_after same default peer k [] old = old
delay_after same default peer k (prune_topic t _ backoff ∷ r) old =
    let new : ℕ = elim backoff [ none ↦ default | some b ↦ wrapping_add b prune_backoff_delay ] in
    delay_after same default peer k r (if same k (peer, t) then some new else old)
delay_after same default peer k (i_have _ _ ∷ r) old = delay_after same default peer k r old
delay_after same default peer k (i_want _ ∷ r) old = delay_after same default peer k r old
delay_after same default peer k (graft_topic _ ∷ r) old = delay_after same default peer k r old

module _ {w : Wire} {same : Key w → Key w → Bool} {d : DelaySet (Key w)}
    (set : IsDelaySet same d) where
  -- The set accepts the delays that the PRUNE messages ask for.
  abbrev pub AreNear : List (ControlAction w) → Type 0
  AreNear [] = Unit
  AreNear (prune_topic t _ (some b) ∷ r) =
      (wrapping_add b prune_backoff_delay ≤ set.max_delay) × AreNear r
  AreNear (prune_topic t _ none ∷ r) = AreNear r
  AreNear (i_have _ _ ∷ r) = AreNear r
  AreNear (i_want _ ∷ r) = AreNear r
  AreNear (graft_topic _ ∷ r) = AreNear r

  abbrev Prunes :
      w.PeerId → List (ControlAction w) → MaliciousBehaviour w d → MaliciousBehaviour w d → Type 0
  Prunes peer msgs s s' =
      (s'.events ≡ s.events)
      × ((k : Key w)
          → set.delay s'.regraft k
            ≡ delay_after same (set.default_delay s.regraft) peer k msgs (set.delay s.regraft k))

  pub handle_prune_lem :
      (peer : w.PeerId) (msgs : List (ControlAction w)) (s : MaliciousBehaviour w d)
      → AreNear msgs
      → (s' : MaliciousBehaviour w d) × (handle_prune d peer (prune_msgs msgs) s ≡ ok s')
        × Prunes peer msgs s s'
  unfolding handle_prune prune_msgs delay_after
  handle_prune_lem peer [] s near = (s, refl, (refl, λ k. refl))
  handle_prune_lem peer (i_have _ _ ∷ r) s near = handle_prune_lem peer r s near
  handle_prune_lem peer (i_want _ ∷ r) s near = handle_prune_lem peer r s near
  handle_prune_lem peer (graft_topic _ ∷ r) s near = handle_prune_lem peer r s near
  handle_prune_lem peer (prune_topic t ps none ∷ r) s near =
      let (s', done, (kept, delays)) =
        handle_prune_lem peer r (record s { regraft = d.insert_key (peer, t) s.regraft }) near in
      (s', done, (kept, λ k. delays k ∙ simp (set.default_of_insert, set.delay_of_insert)))
  handle_prune_lem peer (prune_topic t ps (some b) ∷ r) s (here, near) =
      let n = wrapping_add b prune_backoff_delay in
      let (q, inserted) = set.accepts (peer, t) n s.regraft here in
      let (s', done, (kept, delays)) = handle_prune_lem peer r (record s { regraft = q }) near in
      (
        s',
        rw inserted done,
        (
          kept,
          λ k.
              delays k
              ∙ rw
                  (
                    set.default_of_insert_at (peer, t) n s.regraft q inserted,
                    set.delay_of_insert_at (peer, t) k n s.regraft q inserted,
                  )
                  refl,
        ),
      )

  pub no_prunes :
      (peer : w.PeerId) (ps : List (PruneData w)) (s : MaliciousBehaviour w d)
      → (if is_empty ps then ok s else handle_prune d peer ps s) ≡ handle_prune d peer ps s
  unfolding handle_prune
  no_prunes peer [] s = refl
  no_prunes peer (p ∷ ps) s = refl

  module _ (codec : Codec w) {into_protobuf : GossipsubRpc w → Rpc w}
      {graft_of : w.TopicHash → w.Graft} (lawful : IsProtobuf into_protobuf graft_of) where
    pub no_subscriptions :
        (source : w.PeerId) (subs : List (GossipsubSubscription w)) (s : MaliciousBehaviour w d)
        → (if is_empty subs
            then ok s
            else handle_received_subscriptions d codec into_protobuf subs source s)
          ≡ handle_received_subscriptions d codec into_protobuf subs source s
    unfolding handle_received_subscriptions topics_to_graft
    no_subscriptions source [] s = refl
    no_subscriptions source (x ∷ xs) s = refl
