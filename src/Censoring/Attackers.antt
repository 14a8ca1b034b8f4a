-- ===== src/Censoring/Attackers.antt =====
-- `MaliciousBehaviour` of censoring/src/attacker.rs. The file repeats scoring/src/attacker.rs line by
-- line but for the configuration, which is gossipsub's default, and what it logs; `codec` has the
-- maximal size of that configuration.
use gossipsub_testground.Base.{ℕ, ◌+◌, List, [], Option, Outcome}
use gossipsub_testground.Attacker.Wire.{Wire, Rpc, Codec, DelaySet}
use gossipsub_testground.Attacker.Fragment.{PublishError}
use gossipsub_testground.Attacker.Fragment
use gossipsub_testground.Attacker.Behaviour.{
  GossipsubSubscription, GossipsubRpc, HandlerEvent, Action, Key, PruneData, MaliciousBehaviour,
}
use gossipsub_testground.Attacker.Behaviour

-- `PRUNE_BACKOFF` of censoring/src/honest.rs and `PRUNE_BACKOFF_DELAY`, in seconds.
abbrev pub prune_backoff : ℕ
prune_backoff = 60

abbrev pub prune_backoff_delay : ℕ
prune_backoff_delay = 5

module _ {w : Wire} (d : DelaySet (Key w)) where
  unfoldable pub new : MaliciousBehaviour w d
  new = record { events = []; regraft = d.with_delay (prune_backoff + prune_backoff_delay) }

  unfoldable pub handle_prune :
      w.PeerId
      → List (PruneData w)
      → MaliciousBehaviour w d
      → Outcome PublishError (MaliciousBehaviour w d)
  handle_prune = Behaviour.handle_prune d

  module _ (codec : Codec w) where
    unfoldable pub fragment_message : Rpc w → Outcome PublishError (List (Rpc w))
    fragment_message = Fragment.fragment_message codec

    module _ (into_protobuf : GossipsubRpc w → Rpc w) where
      unfoldable pub send_message :
          w.PeerId → Rpc w → MaliciousBehaviour w d → Outcome PublishError (MaliciousBehaviour w d)
      send_message = Behaviour.send_message d codec into_protobuf

      unfoldable pub handle_received_subscriptions :
          List (GossipsubSubscription w)
          → (propagation_source : w.PeerId) → MaliciousBehaviour w d
          → Outcome PublishError (MaliciousBehaviour w d)
      handle_received_subscriptions = Behaviour.handle_received_subscriptions d codec into_protobuf

      unfoldable pub inject_event :
          (propagation_source : w.PeerId)
          → HandlerEvent w
          → MaliciousBehaviour w d
          → Outcome PublishError (MaliciousBehaviour w d)
      inject_event = Behaviour.inject_event d codec into_protobuf

      -- The loop over the keys that are due runs on fuel.
      unfoldable pub poll :
          (fuel now : ℕ)
          → MaliciousBehaviour w d
          → Option (Outcome PublishError (Option (Action w) × MaliciousBehaviour w d))
      poll = Behaviour.poll d codec into_protobuf
