-- ===== src/Tests/Attackers.antt =====
-- An attacker whose identifiers are numbers, and its handlers at concrete inputs.
use gossipsub_testground.Simulation.Accepted.{some-inj, none_some}
use gossipsub_testground.Base.{
  ℕ, sym, inl, inr, Bool-cases, suc, All, ◌≤◌, ◌+◌, ◌*◌, ◌/◌, ◌<◌, ◌≡◌, refl, ap, ◌⊎◌, List, [],
  ◌∷◌, ◌++◌, map, Bool, true, false, ◌&&◌, Option, none, some, ok, err, arith, length, ltb, leb,
  ◌==◌, if◌then◌else◌,
}
use gossipsub_testground.Attacker.Wire.{
  Wire, Rpc, ControlMessage, Codec, Poll, ready_key, ready_error, ready_none, pending, DelaySet,
  IsDelaySet,
}
use gossipsub_testground.Attacker.Fragment.{
  message_too_large, control_or_empty, fragment_message, add_items, add_item, item_len, add_control,
  create_or_add_rpc, last?, modify_last, is_new, push, add_control_message, put_control,
}
use gossipsub_testground.Attacker.Fragment.Contents.{IsNonempty, gather}
use gossipsub_testground.Attacker.Fragment.Errors.{has_oversized, fragment_message_outcome}
use gossipsub_testground.Attacker.Fragment.Lossless.{fragment_message_lossless}
use gossipsub_testground.Attacker.Behaviour.{
  subscribe, unsubscribe, GossipsubRpc, ControlAction, i_have, i_want, graft_topic, prune_topic,
  message, Action, MaliciousBehaviour, new, IsProtobuf, poll_regraft,
}
use gossipsub_testground.Attacker.Target.{
  Info, info, collect_beacon_node_info, IsFirstLargest, collect_beacon_node_info_target,
}
use gossipsub_testground.Attacker.Behaviour.Silence.{IsSilent}
use gossipsub_testground.Attacker.History.{inject, poll_at, history, history_forwards_nothing}
use gossipsub_testground.Attacker.Behaviour.Grafts.{sent_grafts}
use gossipsub_testground.Attacker.Behaviour.Regraft.{AreNear}
use gossipsub_testground.Attacker.Behaviour.Polls.{due_keys, poll_regraft_grafts}

abbrev numbers : Wire
numbers = record {
  PeerId = ℕ;
  TopicHash = ℕ;
  MessageId = ℕ;
  PeerInfo = ℕ;
  RawMessage = ℕ;
  Message = ℕ;
  SubOpts = ℕ;
  IHave = ℕ;
  IWant = ℕ;
  Graft = ℕ;
  Prune = ℕ;
}

-- A message is its own length, and the other objects have length one.
abbrev sum : List ℕ → ℕ
sum [] = 0
sum (x ∷ xs) = x + sum xs

abbrev control_size : ControlMessage numbers → ℕ
control_size c = length c.ihave + length c.iwant + length c.graft + length c.prune

abbrev codec : Codec numbers
codec = record {
  message_len = λ m. m;
  subscription_len = λ s. 1;
  ihave_len = λ x. 1;
  iwant_len = λ x. 1;
  graft_len = λ x. 1;
  prune_len = λ x. 1;
  control_len = control_size;
  rpc_len = λ r. sum r.publish + length r.subscriptions + control_size (control_or_empty r.control);
  max_transmit_size = 10;
  with_five_percent = λ n. n * 105 / 100;
}

abbrev large : Rpc numbers
large = record {
  subscriptions = 1 ∷ 2 ∷ [];
  publish = 6 ∷ 5 ∷ 3 ∷ [];
  control = some (record { ihave = 7 ∷ []; iwant = []; graft = 8 ∷ 9 ∷ []; prune = [] });
}

abbrev large_fragments : List (Rpc numbers)
large_fragments =
    record { subscriptions = []; publish = 6 ∷ []; control = none }
    ∷ record { subscriptions = 1 ∷ 2 ∷ []; publish = 5 ∷ 3 ∷ []; control = none }
    ∷ record {
      subscriptions = [];
      publish = [];
      control = some (record { ihave = 7 ∷ []; iwant = []; graft = 8 ∷ 9 ∷ []; prune = [] });
    }
    ∷ []

large_fragmented : fragment_message codec large ≡ ok large_fragments
unfolding fragment_message add_items add_item item_len add_control create_or_add_rpc last?
    modify_last is_new push add_control_message put_control
large_fragmented = refl

fragment_message_lossless_example :
    (gather (λ r. r.publish) large_fragments ≡ 6 ∷ 5 ∷ 3 ∷ [])
    × (gather (λ r. r.subscriptions) large_fragments ≡ 1 ∷ 2 ∷ [])
    × (gather (λ r. (control_or_empty r.control).ihave) large_fragments ≡ 7 ∷ [])
    × (gather (λ r. (control_or_empty r.control).iwant) large_fragments ≡ [])
    × (gather (λ r. (control_or_empty r.control).graft) large_fragments ≡ 8 ∷ 9 ∷ [])
    × (gather (λ r. (control_or_empty r.control).prune) large_fragments ≡ [])
fragment_message_lossless_example =
    fragment_message_lossless codec large large_fragments large_fragmented

fragment_message_outcome_example :
    ((ltb (codec.rpc_len large) 10 ≡ false)
      × (has_oversized codec large ≡ true)
      × (fragment_message codec large ≡ err message_too_large))
    ⊎ (((ltb (codec.rpc_len large) 10 ≡ true) ⊎ (has_oversized codec large ≡ false))
        × (rs : List (Rpc numbers)) × (fragment_message codec large ≡ ok rs)
        × IsNonempty rs)
fragment_message_outcome_example = fragment_message_outcome codec large

-- A set of delays as its default and the list of its entries, the newest first.
abbrev Entries : Type 0
Entries = List ((ℕ × ℕ) × ℕ)

abbrev same_key : ℕ × ℕ → ℕ × ℕ → Bool
same_key a b = a.0 == b.0 && a.1 == b.1

abbrev find_delay : Entries → ℕ × ℕ → Option ℕ
find_delay [] k = none
find_delay ((j, n) ∷ m) k = if same_key k j then some n else find_delay m k

abbrev poll_entries : ℕ → ℕ × Entries → Poll (ℕ × ℕ) × (ℕ × Entries)
poll_entries now (n, []) = (ready_none, (n, []))
poll_entries now (n, (k, due) ∷ m) =
    if leb due now then (ready_key k, (n, m)) else (pending, (n, (k, due) ∷ m))

abbrev delays : DelaySet (ℕ × ℕ)
delays = record {
  Set = ℕ × Entries;
  with_delay = λ n. (n, []);
  insert_key = λ k s. (s.0, (k, s.0) ∷ s.1);
  insert_at = λ k n s. if leb n 1000 then some (s.0, (k, n) ∷ s.1) else none;
  poll_next = poll_entries;
}

poll_entries-size :
    (now : ℕ) (s : ℕ × Entries) (k : ℕ × ℕ)
    → (poll_entries now s).0 ≡ ready_key k
    → length (poll_entries now s).1.1 < length s.1
poll_entries-size now (n, []) k h = absurd cc
poll_entries-size now (n, (j, due) ∷ m) k h = ground arith

no_errors :
    (now : ℕ) (s : ℕ × Entries)
    → (poll_entries now s).0 ≡ ready_error
    → length (poll_entries now s).1.1 < length s.1
no_errors now (n, []) h = absurd cc
no_errors now (n, (j, due) ∷ m) h = ground arith

inserted_entries :
    (k : ℕ × ℕ) (n : ℕ) (s t : ℕ × Entries)
    → delays.insert_at k n s ≡ some t
    → (t.0 ≡ s.0)
      × ((j : ℕ × ℕ) → find_delay t.1 j ≡ (if same_key j k then some n else find_delay s.1 j))
inserted_entries k n s t inserted = elim (Bool-cases (leb n 1000)) [
  | inl near ↦
      let same : (s.0, (k, n) ∷ s.1) ≡ t = some-inj (rw near at inserted) in
      (
        ap (λ (u : ℕ × Entries). u.0) (sym same),
        λ j. ap (λ (u : ℕ × Entries). find_delay u.1 j) (sym same),
      )
  | inr far ↦ absurd (none_some t (rw far at inserted))
]

accepted_delay :
    (k : ℕ × ℕ) (n : ℕ) (s : ℕ × Entries)
    → n ≤ 1000
    → (t : ℕ × Entries) × (delays.insert_at k n s ≡ some t)
accepted_delay k n s near = ((s.0, (k, n) ∷ s.1), ground (arith, near))

abbrev delays-IsDelaySet : IsDelaySet same_key delays
delays-IsDelaySet = record {
  max_delay = 1000;
  default_delay = λ s. s.0;
  delay = λ s k. find_delay s.1 k;
  size = λ s. length s.1;
  default_of_new = λ n. refl;
  default_of_insert = λ k s. refl;
  default_of_insert_at = λ k n s t inserted. (inserted_entries k n s t inserted).0;
  accepts = λ k n s near. accepted_delay k n s near;
  delay_of_insert = λ k j s. refl;
  delay_of_insert_at = λ k j n s t inserted. (inserted_entries k n s t inserted).1 j;
  size_of_key = λ now s k h. poll_entries-size now s k h;
  size_of_error = λ now s h. no_errors now s h;
}

abbrev grafts_in : List (ControlAction numbers) → List ℕ
grafts_in [] = []
grafts_in (graft_topic t ∷ r) = t ∷ grafts_in r
grafts_in (i_have _ _ ∷ r) = grafts_in r
grafts_in (i_want _ ∷ r) = grafts_in r
grafts_in (prune_topic _ _ _ ∷ r) = grafts_in r

abbrev to_protobuf : GossipsubRpc numbers → Rpc numbers
to_protobuf rpc = record {
  subscriptions = map (λ s. s.topic_hash) rpc.subscriptions;
  publish = rpc.messages;
  control =
      some (record { ihave = []; iwant = []; graft = grafts_in rpc.control_msgs; prune = [] });
}

grafts_in-map : (ts : List ℕ) → grafts_in (map graft_topic ts) ≡ map (λ t. t) ts
grafts_in-map [] = refl
grafts_in-map (t ∷ ts) = ap (λ r. t ∷ r) (grafts_in-map ts)

to_protobuf-IsProtobuf : IsProtobuf {w = numbers} to_protobuf (λ t. t)
to_protobuf-IsProtobuf = record {
  no_publish = λ ts. refl;
  no_subscriptions = λ ts. refl;
  same_grafts = grafts_in-map;
}

abbrev received : GossipsubRpc numbers
received = record {
  subscriptions =
      record { action = subscribe; topic_hash = 3 }
      ∷ record { action = unsubscribe; topic_hash = 4 }
      ∷ [];
  messages = [];
  control_msgs = prune_topic 5 [] (some 30) ∷ graft_topic 6 ∷ prune_topic 7 [] none ∷ [];
}

abbrev start : MaliciousBehaviour numbers delays
start = record { events = []; regraft = (65, ((1, 3), 10) ∷ ((2, 4), 20) ∷ ((2, 5), 90) ∷ []) }

received_near : AreNear delays-IsDelaySet received.control_msgs
received_near = (omega arith, tt)

poll_regraft_grafts_example :
    (s' : MaliciousBehaviour numbers delays) × (poll_regraft delays codec to_protobuf 4 50 start
      ≡ some (ok s'))
    × (s'.regraft ≡ (due_keys delays 4 50 start.regraft).1)
    × (sent_grafts s'.events
        ≡ sent_grafts start.events ++ map (λ k. (k.0, k.1)) (due_keys delays 4 50 start.regraft).0)
poll_regraft_grafts_example =
    poll_regraft_grafts delays-IsDelaySet codec to_protobuf-IsProtobuf 4 50 start (omega arith)

abbrev queued : List (Action numbers)
queued = record { peer_id = 2; event = large } ∷ record { peer_id = 1; event = large } ∷ []

abbrev infos : List Info
infos = (4, 1 ∷ []) ∷ (2, 5 ∷ 6 ∷ []) ∷ (3, 7 ∷ 8 ∷ []) ∷ []

collect_beacon_node_info_target_example :
    (target : ℕ) × (nodes : List Info) × (collect_beacon_node_info 5 2 (map info infos)
      ≡ ok (target, nodes))
    × (((target ≡ 0) × All (λ i. length i.1 ≤ 0) infos)
        ⊎ ((most : ℕ) × IsFirstLargest 0 target most infos × All (λ i. length i.1 ≤ most) infos))
collect_beacon_node_info_target_example = collect_beacon_node_info_target 2 infos (omega arith)

history_forwards_nothing_example :
    (actions : List (Action numbers)) × (s : MaliciousBehaviour numbers delays) × (history delays
        codec to_protobuf
        (λ q. suc (length q.1))
        (inject 2 (message received) ∷ poll_at 40 ∷ poll_at 90 ∷ [])
        (new delays)
      ≡ some (ok (actions, s)))
    × All IsSilent actions
    × All IsSilent s.events
history_forwards_nothing_example =
    history_forwards_nothing delays-IsDelaySet codec to_protobuf-IsProtobuf (λ q. suc (length q.1))
      (λ q. omega arith) (inject 2 (message received) ∷ poll_at 40 ∷ poll_at 90 ∷ [])
      (received_near, tt)
