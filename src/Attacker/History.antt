-- ===== src/Attacker/History.antt =====
-- An attacker over a whole run: received events and polls in any order. It forwards nothing.
use gossipsub_testground.Base.{
  ℕ, ◌<◌, ◌≡◌, refl, List, [], ◌∷◌, Option, none, some, Bool, Outcome, ok, err, panic, All,
}
use gossipsub_testground.Attacker.Wire.{Wire, Rpc, Codec, DelaySet, IsDelaySet}
use gossipsub_testground.Attacker.Fragment.{PublishError}
use gossipsub_testground.Attacker.Behaviour.{
  GossipsubRpc, HandlerEvent, Action, Key, MaliciousBehaviour, IsProtobuf, new, inject_event, poll,
}
use gossipsub_testground.Attacker.Behaviour.Silence.{
  IsSilent, IsSilentOption, Silent, HasNear, poll-Silent, inject_event-Silent,
}

-- What libp2p calls: `inject_event`, and `poll` at a time.
pub data Call (w : Wire) : Type 0 where
  inject : (source : w.PeerId) (event : HandlerEvent w) → Call w
  poll_at : (now : ℕ) → Call w

module _ {w : Wire} (d : DelaySet (Key w)) (codec : Codec w)
    (into_protobuf : GossipsubRpc w → Rpc w) (fuel : d.Set → ℕ) where
  abbrev with_action :
      Option (Action w)
      → Option (Outcome PublishError (List (Action w) × MaliciousBehaviour w d))
      → Option (Outcome PublishError (List (Action w) × MaliciousBehaviour w d))
  with_action (some a) (some (ok (actions, s))) = some (ok (a ∷ actions, s))
  with_action (some a) (some (err e)) = some (err e)
  with_action (some a) (some panic) = some panic
  with_action (some a) none = none
  with_action none rest = rest

  -- The calls in turn, and the actions that the polls return.
  unfoldable pub history :
      List (Call w)
      → MaliciousBehaviour w d
      → Option (Outcome PublishError (List (Action w) × MaliciousBehaviour w d))
  unfolding with_action
  history [] s = some (ok ([], s))
  history (inject source event ∷ calls) s =
      elim (inject_event d codec into_protobuf source event s) [
        | ok s' ↦ history calls s'
        | err e ↦ some (err e)
        | panic ↦ some panic
      ]
  history (poll_at now ∷ calls) s = elim (poll d codec into_protobuf (fuel s.regraft) now s) [
    | none ↦ none
    | some panic ↦ some panic
    | some (err e) ↦ some (err e)
    | some (ok (a, s')) ↦ with_action a (history calls s')
  ]

module _ {w : Wire} {same : Key w → Key w → Bool} {d : DelaySet (Key w)} (set : IsDelaySet same d)
    (codec : Codec w) {into_protobuf : GossipsubRpc w → Rpc w} {graft_of : w.TopicHash → w.Graft}
    (lawful : IsProtobuf into_protobuf graft_of) where
  module _ (fuel : d.Set → ℕ) (enough : (q : d.Set) → set.size q < fuel q) where
    abbrev Stays : List (Call w) → MaliciousBehaviour w d → Type 0
    Stays calls s =
        (actions : List (Action w)) × (s' : MaliciousBehaviour w d) × (history d codec into_protobuf
            fuel calls s
          ≡ some (ok (actions, s')))
        × All IsSilent actions
        × All IsSilent s'.events

    -- The poll's action stands in front of those of the later calls.
    StaysAfter : Option (Action w) → List (Call w) → MaliciousBehaviour w d → Type 0
    StaysAfter a calls s =
        (actions : List (Action w)) × (s' : MaliciousBehaviour w d) × (with_action d codec
            into_protobuf fuel a (history d codec into_protobuf fuel calls s)
          ≡ some (ok (actions, s')))
        × All IsSilent actions
        × All IsSilent s'.events

    after_poll :
        (a : Option (Action w)) (calls : List (Call w)) (s : MaliciousBehaviour w d)
        → IsSilentOption a
        → Stays calls s
        → StaysAfter a calls s
    unfolding StaysAfter
    after_poll none calls s answer stays = stays
    after_poll (some a) calls s answer (actions, s', rest, said, last) =
        (a ∷ actions, s', rw rest refl, (answer, said), last)

    -- The set accepts the delays that the received PRUNE messages ask for.
    abbrev pub AllNear : List (Call w) → Type 0
    AllNear [] = Unit
    AllNear (inject source event ∷ calls) = HasNear set codec lawful event × AllNear calls
    AllNear (poll_at now ∷ calls) = AllNear calls

    history-Silent :
        (calls : List (Call w)) (s : MaliciousBehaviour w d)
        → AllNear calls
        → Silent s
        → Stays calls s
    unfolding history StaysAfter
    history-Silent [] s near silent = ([], s, refl, tt, silent)
    history-Silent (inject source event ∷ calls) s near silent =
        let (m, injected, quiet) =
          inject_event-Silent set codec lawful source event s near.0 silent in
        let (actions, s', rest, said, last) = history-Silent calls m near.1 quiet in
        (actions, s', rw (injected, history) rest, said, last)
    history-Silent (poll_at now ∷ calls) s near silent =
        let (a, m, polled, answer, quiet) =
          poll-Silent set codec lawful (fuel s.regraft) now s.events s.regraft (enough s.regraft)
            silent in
        let (actions, s', rest, said, last) =
          after_poll a calls m answer (history-Silent calls m near quiet) in
        (actions, s', rw (polled, history) rest, said, last)

    -- Over any sequence of received events and polls, if the set accepts the delays that the events
    -- ask for and with enough fuel for the loop of `poll`, a new attacker never fails, and no
    -- action that it returns or still has queued holds a message or a subscription.
    pub history_forwards_nothing :
        (calls : List (Call w))
        → AllNear calls
        → (actions : List (Action w)) × (s : MaliciousBehaviour w d) × (history d codec
              into_protobuf fuel calls
              (new d)
            ≡ some (ok (actions, s)))
          × All IsSilent actions
          × All IsSilent s.events
    unfolding new
    history_forwards_nothing calls near = history-Silent calls (new d) near tt
