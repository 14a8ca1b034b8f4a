-- ===== src/Attacker/Behaviour.antt =====
-- `MaliciousBehaviour` of the attackers: a peer that grafts itself to every topic it hears of, grafts
-- itself again after each PRUNE, and forwards no message.
pub mod Grafts
pub mod Regraft
pub mod Polls
pub mod Silence
use gossipsub_testground.Base.{
  ℕ, zero, suc, ◌≡◌, ◌+◌, List, [], ◌∷◌, ◌++◌, map, Option, none, some, Outcome, ok, err, panic,
  ◌>>=◌, expect, is_empty, if◌then◌else◌, wrapping_add,
}
use gossipsub_testground.Attacker.Wire.{
  Wire, Rpc, Codec, Poll, ready_key, ready_error, ready_none, pending, DelaySet,
}
use gossipsub_testground.Attacker.Fragment.{PublishError, control_or_empty, fragment_message}

-- `PRUNE_BACKOFF` and `PRUNE_BACKOFF_DELAY`, in seconds.
abbrev pub prune_backoff : ℕ
prune_backoff = 60

abbrev pub prune_backoff_delay : ℕ
prune_backoff_delay = 5

module _ (w : Wire) where
  pub data SubscriptionAction : Type 0 where
    subscribe : SubscriptionAction
    unsubscribe : SubscriptionAction

  pub record GossipsubSubscription : Type 0 where
    pub action : SubscriptionAction
    pub topic_hash : w.TopicHash

  pub data ControlAction : Type 0 where
    i_have : w.TopicHash → List w.MessageId → ControlAction
    i_want : List w.MessageId → ControlAction
    graft_topic : w.TopicHash → ControlAction
    prune_topic : w.TopicHash → List w.PeerInfo → Option ℕ → ControlAction

  pub record GossipsubRpc : Type 0 where
    pub subscriptions : List GossipsubSubscription
    pub messages : List w.RawMessage
    pub control_msgs : List ControlAction

  pub data HandlerEvent : Type 0 where
    message : GossipsubRpc → HandlerEvent
    peer_kind : HandlerEvent

  -- `NetworkBehaviourAction::NotifyHandler`, the one action that the attackers emit.
  pub record Action : Type 0 where
    pub peer_id : w.PeerId
    pub event : Rpc w

  abbrev pub Key : Type 0
  Key = w.PeerId × w.TopicHash

  abbrev pub PruneData : Type 0
  PruneData = w.TopicHash × List w.PeerInfo × Option ℕ

pub record MaliciousBehaviour (w : Wire) (d : DelaySet (Key w)) : Type 0 where
  pub events : List (Action w)
  pub regraft : d.Set

module _ {w : Wire} where
  -- The loop that collects the topics to graft.
  unfoldable pub topics_to_graft : List (GossipsubSubscription w) → List w.TopicHash
  topics_to_graft [] = []
  topics_to_graft (s ∷ r) = elim s.action [
    | subscribe ↦ s.topic_hash ∷ topics_to_graft r
    | unsubscribe ↦ topics_to_graft r
  ]

  -- The loop that collects the PRUNE messages.
  unfoldable pub prune_msgs : List (ControlAction w) → List (PruneData w)
  prune_msgs [] = []
  prune_msgs (prune_topic t peers backoff ∷ r) = (t, peers, backoff) ∷ prune_msgs r
  prune_msgs (i_have t ids ∷ r) = prune_msgs r
  prune_msgs (i_want ids ∷ r) = prune_msgs r
  prune_msgs (graft_topic t ∷ r) = prune_msgs r

  -- The RPC of GRAFT messages that the attackers send.
  abbrev pub graft_rpc : List w.TopicHash → GossipsubRpc w
  graft_rpc topics = record {
    subscriptions = [];
    messages = [];
    control_msgs = map graft_topic topics;
  }

-- What the attackers need of gossipsub's `into_protobuf`: an RPC of GRAFT messages becomes one with
-- these messages alone.
pub record IsProtobuf {w : Wire} (into_protobuf : GossipsubRpc w → Rpc w)
    (graft_of : w.TopicHash → w.Graft) : Type 0 where
  pub no_publish : (ts : List w.TopicHash) → (into_protobuf (graft_rpc ts)).publish ≡ []
  pub no_subscriptions : (ts : List w.TopicHash) → (into_protobuf (graft_rpc ts)).subscriptions ≡ []
  pub same_grafts :
      (ts : List w.TopicHash)
      → (control_or_empty (into_protobuf (graft_rpc ts)).control).graft ≡ map graft_of ts

module _ {w : Wire} (d : DelaySet (Key w)) where
  unfoldable pub new : MaliciousBehaviour w d
  new = record { events = []; regraft = d.with_delay (prune_backoff + prune_backoff_delay) }

  unfoldable pub handle_prune :
      w.PeerId
      → List (PruneData w)
      → MaliciousBehaviour w d
      → Outcome PublishError (MaliciousBehaviour w d)
  handle_prune peer [] s = ok s
  handle_prune peer ((t, _, some backoff) ∷ r) s = do
    regraft ← expect (d.insert_at (peer, t) (wrapping_add backoff prune_backoff_delay) s.regraft)
    handle_prune peer r (record s { regraft = regraft })
  handle_prune peer ((t, _, none) ∷ r) s =
      handle_prune peer r (record s { regraft = d.insert_key (peer, t) s.regraft })

  module _ (codec : Codec w) (into_protobuf : GossipsubRpc w → Rpc w) where
    unfoldable pub send_message :
        w.PeerId → Rpc w → MaliciousBehaviour w d → Outcome PublishError (MaliciousBehaviour w d)
    send_message peer rpc s = do
      messages ← fragment_message codec rpc
      ok (record s {
        events = s.events ++ map (λ m. record { peer_id = peer; event = m }) messages;
      })

    -- `if let Err(error) = self.send_message(..)`, which logs the error: the state stays what it was.
    unfoldable pub send_or_log :
        w.PeerId → Rpc w → MaliciousBehaviour w d → Outcome PublishError (MaliciousBehaviour w d)
    send_or_log peer rpc s = elim (send_message peer rpc s) [
      | ok s' ↦ ok s'
      | err e ↦ ok s
      | panic ↦ panic
    ]

    unfoldable pub handle_received_subscriptions :
        List (GossipsubSubscription w)
        → w.PeerId
        → MaliciousBehaviour w d
        → Outcome PublishError (MaliciousBehaviour w d)
    handle_received_subscriptions subscriptions propagation_source s =
        let topics = topics_to_graft subscriptions in
        if is_empty topics
        then ok s
        else send_or_log propagation_source (into_protobuf (graft_rpc topics)) s

    unfoldable pub inject_event :
        w.PeerId
        → HandlerEvent w
        → MaliciousBehaviour w d
        → Outcome PublishError (MaliciousBehaviour w d)
    inject_event propagation_source (message rpc) s = do
      s' ←
          if is_empty rpc.subscriptions
          then ok s
          else handle_received_subscriptions rpc.subscriptions propagation_source s
      let prunes = prune_msgs rpc.control_msgs
      if is_empty prunes then ok s' else handle_prune propagation_source prunes s'
    inject_event propagation_source peer_kind s = ok s

    -- A round of the loop of `poll`, with the rounds behind it.
    unfoldable pub regraft_round :
        Poll (Key w)
        → (MaliciousBehaviour w d → Option (Outcome PublishError (MaliciousBehaviour w d)))
        → MaliciousBehaviour w d
        → Option (Outcome PublishError (MaliciousBehaviour w d))
    regraft_round (ready_key k) rest s =
        elim (send_or_log k.0 (into_protobuf (graft_rpc (k.1 ∷ []))) s) [
          | ok s' ↦ rest s'
          | err e ↦ some (err e)
          | panic ↦ some panic
        ]
    regraft_round ready_error rest s = rest s
    regraft_round ready_none rest s = some (ok s)
    regraft_round pending rest s = some (ok s)

    -- The loop of `poll` over the keys that are due at the time `now`; `none` when the fuel is out.
    unfoldable pub poll_regraft :
        ℕ → ℕ → MaliciousBehaviour w d → Option (Outcome PublishError (MaliciousBehaviour w d))
    unfolding regraft_round
    poll_regraft zero now s = none
    poll_regraft (suc fuel) now s =
        let (answer, regraft) = d.poll_next now s.regraft in
        regraft_round answer (λ s'. poll_regraft fuel now s') (record s { regraft = regraft })

    -- `poll`: the action that is ready, if any, and the state.
    unfoldable pub poll :
        ℕ
        → ℕ
        → MaliciousBehaviour w d
        → Option (Outcome PublishError (Option (Action w) × MaliciousBehaviour w d))
    poll fuel now s = elim s.events [
      | e ∷ r ↦ some (ok (some e, record s { events = r }))
      | [] ↦ elim (poll_regraft fuel now s) [
        | none ↦ none
        | some o ↦ some (do s' ← o; ok (none, s'))
      ]
    ]
