-- ===== src/Attacker/Behaviour/Grafts.antt =====
-- The GRAFT messages that the attackers have queued, and what `send_message` adds to them.
use gossipsub_testground.Base.{
  ◌≡◌, refl, sym, ap, ◌∙◌, List, [], ◌∷◌, ◌++◌, map, ok, is_empty, if◌then◌else◌, append-nil,
  append_assoc,
}
use gossipsub_testground.Attacker.Wire.{Wire, Rpc, Codec, DelaySet}
use gossipsub_testground.Attacker.Fragment.{control_or_empty, fragment_message}
use gossipsub_testground.Attacker.Fragment.Contents.{gather}
use gossipsub_testground.Attacker.Fragment.Errors.{fragment_message_control}
use gossipsub_testground.Attacker.Fragment.Lossless.{fragment_message_lossless}
use gossipsub_testground.Attacker.Behaviour.{
  GossipsubSubscription, GossipsubRpc, Action, Key, MaliciousBehaviour, IsProtobuf, graft_rpc,
  topics_to_graft, send_message, send_or_log, handle_received_subscriptions,
}

map-append : {A B : Type 0} (f : A → B) (xs ys : List A) → map f (xs ++ ys) ≡ map f xs ++ map f ys
map-append f [] ys = refl
map-append f (x ∷ xs) ys = rw (map-append f xs ys)

map-map :
    {A B C : Type 0} (g : B → C) (f : A → B) (xs : List A)
    → map g (map f xs) ≡ map (λ x. g (f x)) xs
map-map g f [] = refl
map-map g f (x ∷ xs) = rw (map-map g f xs)

module _ {w : Wire} where
  -- The GRAFT messages of the queued actions, each with the peer it goes to, in the queue's order.
  unfoldable pub sent_grafts : List (Action w) → List (w.PeerId × w.Graft)
  sent_grafts [] = []
  sent_grafts (a ∷ r) =
      map (λ g. (a.peer_id, g)) (control_or_empty a.event.control).graft ++ sent_grafts r

  pub sent_grafts-append :
      (xs ys : List (Action w)) → sent_grafts (xs ++ ys) ≡ sent_grafts xs ++ sent_grafts ys
  unfolding sent_grafts
  sent_grafts-append [] ys = refl
  sent_grafts-append (a ∷ r) ys = simp (sent_grafts-append r ys, append_assoc)

  sent_grafts-map :
      (peer : w.PeerId) (rs : List (Rpc w))
      → sent_grafts (map (λ m. record { peer_id = peer; event = m }) rs)
        ≡ map (λ g. (peer, g)) (gather (λ r. (control_or_empty r.control).graft) rs)
  unfolding sent_grafts gather
  sent_grafts-map peer [] = refl
  sent_grafts-map peer (r ∷ rs) = simp (sent_grafts-map peer rs, map-append)

module _ {w : Wire} (d : DelaySet (Key w)) (codec : Codec w)
    {into_protobuf : GossipsubRpc w → Rpc w} {graft_of : w.TopicHash → w.Graft}
    (lawful : IsProtobuf into_protobuf graft_of) where
  pub send_or_log-ok :
      (peer : w.PeerId) (rpc : Rpc w) (rs : List (Rpc w)) (s : MaliciousBehaviour w d)
      → fragment_message codec rpc ≡ ok rs
      → send_or_log d codec into_protobuf peer rpc s
        ≡ ok (record s { events = s.events ++ map (λ m. record { peer_id = peer; event = m }) rs })
  unfolding send_or_log send_message
  send_or_log-ok peer rpc rs s e = rw (send_or_log, send_message, e) refl

  pub send_or_log-grafts :
      (peer : w.PeerId) (ts : List w.TopicHash) (s : MaliciousBehaviour w d)
      → (s' : MaliciousBehaviour w d) × (send_or_log d codec into_protobuf peer
            (into_protobuf (graft_rpc ts))
            s
          ≡ ok s')
        × (s'.regraft ≡ s.regraft)
        × (sent_grafts s'.events ≡ sent_grafts s.events ++ map (λ t. (peer, graft_of t)) ts)
  send_or_log-grafts peer ts s =
      let rpc = into_protobuf (graft_rpc ts) in
      let (rs, e) =
        fragment_message_control codec rpc (lawful.no_publish ts) (lawful.no_subscriptions ts) in
      let (_, _, _, _, all_grafts, _) = fragment_message_lossless codec rpc rs e in
      (
        record s { events = s.events ++ map (λ m. record { peer_id = peer; event = m }) rs },
        send_or_log-ok peer rpc rs s e,
        refl,
        sent_grafts-append s.events (map (λ m. record { peer_id = peer; event = m }) rs)
            ∙ ap (λ t. sent_grafts s.events ++ t)
                (sent_grafts-map peer rs
                  ∙ ap (map (λ g. (peer, g))) (all_grafts ∙ lawful.same_grafts ts)
                  ∙ map-map (λ g. (peer, g)) graft_of ts),
      )

  pub handle_received_subscriptions-grafts :
      (subs : List (GossipsubSubscription w)) (source : w.PeerId) (s : MaliciousBehaviour w d)
      → (s' : MaliciousBehaviour w d) × (handle_received_subscriptions d codec into_protobuf subs
            source s
          ≡ ok s')
        × (s'.regraft ≡ s.regraft)
        × (sent_grafts s'.events
            ≡ sent_grafts s.events ++ map (λ t. (source, graft_of t)) (topics_to_graft subs))
  unfolding handle_received_subscriptions
  handle_received_subscriptions-grafts subs source s = go (topics_to_graft subs)
    where
      go :
          (ts : List w.TopicHash)
          → (s' : MaliciousBehaviour w d) × ((if is_empty ts
                then ok s
                else send_or_log d codec into_protobuf source (into_protobuf (graft_rpc ts)) s)
              ≡ ok s')
            × (s'.regraft ≡ s.regraft)
            × (sent_grafts s'.events ≡ sent_grafts s.events ++ map (λ t. (source, graft_of t)) ts)
      go [] = (s, refl, refl, sym (append-nil (sent_grafts s.events)))
      go (t ∷ ts) = send_or_log-grafts source (t ∷ ts) s
