-- ===== src/Smoke/Waits.antt =====
-- When the waits of smoke/src/main.rs come to an end.
use gossipsub_testground.Base.{
  ℕ, suc, ◌+◌, ◌-◌, ◌≤◌, ◌<◌, ◌≡◌, refl, sym, List, [], ◌∷◌, none, some, true, false, ok, ◌==◌, ltb,
  leb, if◌then◌else◌, length, word, arith, Bool-cases, inl, inr, ltb→lt, lt→ltb, ==_iff, ==_self,
  ◌≢◌, subst, wrapping_sub,
}
use gossipsub_testground.Base.Counting.{count}
use gossipsub_testground.Base.Maps.{elem}
use gossipsub_testground.Base.Sets.{elem-count}
use gossipsub_testground.Smoke.{
  Event, dialed, listened, behaviour, other, subscribed, message, other_gossip, Received,
  count_events, Waited, pending, completed, duplicated, subscribed_loop, wait_subscribed,
  message_loop, wait_messages,
}

-- The subscriptions among the events, and the sources of the messages.
abbrev pub subscriptions : List Event → ℕ
subscriptions [] = 0
subscriptions (behaviour (subscribed peer) ∷ events) = suc (subscriptions events)
subscriptions (behaviour (message source) ∷ events) = subscriptions events
subscriptions (behaviour other_gossip ∷ events) = subscriptions events
subscriptions (dialed ∷ events) = subscriptions events
subscriptions (listened ∷ events) = subscriptions events
subscriptions (other ∷ events) = subscriptions events

abbrev pub sources : List Event → List ℕ
sources [] = []
sources (behaviour (message (some source)) ∷ events) = source ∷ sources events
sources (behaviour (message none) ∷ events) = sources events
sources (behaviour (subscribed peer) ∷ events) = sources events
sources (behaviour other_gossip ∷ events) = sources events
sources (dialed ∷ events) = sources events
sources (listened ∷ events) = sources events
sources (other ∷ events) = sources events

-- No event of gossipsub but subscriptions; and no message without a source.
abbrev pub OnlySubscribed : List Event → Type 0
OnlySubscribed [] = Unit
OnlySubscribed (behaviour (subscribed peer) ∷ events) = OnlySubscribed events
OnlySubscribed (behaviour (message source) ∷ events) = ⊥
OnlySubscribed (behaviour other_gossip ∷ events) = ⊥
OnlySubscribed (dialed ∷ events) = OnlySubscribed events
OnlySubscribed (listened ∷ events) = OnlySubscribed events
OnlySubscribed (other ∷ events) = OnlySubscribed events

abbrev pub HasSources : List Event → Type 0
HasSources [] = Unit
HasSources (behaviour (message none) ∷ events) = ⊥
HasSources (behaviour (message (some source)) ∷ events) = HasSources events
HasSources (behaviour (subscribed peer) ∷ events) = HasSources events
HasSources (behaviour other_gossip ∷ events) = HasSources events
HasSources (dialed ∷ events) = HasSources events
HasSources (listened ∷ events) = HasSources events
HasSources (other ∷ events) = HasSources events

counted_subscriptions :
    (events : List Event) (before after : Received)
    → count_events events before ≡ ok after
    → after.event_subscribed ≡ before.event_subscribed + subscriptions events
unfolding count_events
counted_subscriptions [] before after h = ground (arith, h)
counted_subscriptions (dialed ∷ events) before after h = counted_subscriptions events before after h
counted_subscriptions (listened ∷ events) before after h =
    counted_subscriptions events before after h
counted_subscriptions (other ∷ events) before after h = counted_subscriptions events before after h
counted_subscriptions (behaviour other_gossip ∷ events) before after h =
    counted_subscriptions events before after h
counted_subscriptions (behaviour (subscribed peer) ∷ events) before after h =
    omega (arith, counted_subscriptions events _ after h)
counted_subscriptions (behaviour (message none) ∷ events) before after h = absurd cc
counted_subscriptions (behaviour (message (some source)) ∷ events) before after h =
    counted_subscriptions events _ after h

loop_subscribed :
    (all_peers : ℕ) (events : List Event) (n : ℕ)
    → n < all_peers
    → OnlySubscribed events
    → subscribed_loop all_peers events n ≡ (
        if leb all_peers (n + subscriptions events)
        then completed all_peers
        else pending (n + subscriptions events))
unfolding subscribed_loop
loop_subscribed all_peers [] n few only = ground arith
loop_subscribed all_peers (behaviour (subscribed peer) ∷ events) n few only =
    ground (arith, loop_subscribed all_peers events (suc n))
loop_subscribed all_peers (behaviour (message source) ∷ events) n few only = absurd only
loop_subscribed all_peers (behaviour other_gossip ∷ events) n few only = absurd only
loop_subscribed all_peers (dialed ∷ events) n few only = loop_subscribed all_peers events n few only
loop_subscribed all_peers (listened ∷ events) n few only =
    loop_subscribed all_peers events n few only
loop_subscribed all_peers (other ∷ events) n few only = loop_subscribed all_peers events n few only

-- After barriers during which the earlier events were counted, and if only subscriptions come, the
-- wait for the subscriptions ends exactly if the subscriptions of the earlier and the later events
-- reach the number of peers.
pub wait_subscribed_outcome :
    (all_peers : ℕ) (earlier events : List Event) (received : Received)
    → count_events earlier (record { event_subscribed = 0; event_message = [] }) ≡ ok received
    → OnlySubscribed events
    → wait_subscribed all_peers events received.event_subscribed ≡ (
        if leb all_peers (subscriptions earlier)
        then completed (subscriptions earlier)
        else if leb all_peers (subscriptions earlier + subscriptions events)
        then completed all_peers
        else pending (subscriptions earlier + subscriptions events))
unfolding wait_subscribed
wait_subscribed_outcome all_peers earlier events received counted only =
    let n : received.event_subscribed ≡ subscriptions earlier =
      omega (arith, counted_subscriptions earlier _ received counted) in
    rw n (elim (Bool-cases (ltb (subscriptions earlier) all_peers)) [
      | inl few ↦
          let less = ltb→lt (subscriptions earlier) all_peers few in
          ground (arith, loop_subscribed all_peers events (subscriptions earlier) less only)
      | inr enough ↦ ground arith
    ])

-- Each number at most once.
abbrev pub HasNoRepeats : List ℕ → Type 0
HasNoRepeats xs = (v : ℕ) → count v xs ≤ 1

duplicate_fails : (xs : List ℕ) → ◌≢◌ {A = Waited (List ℕ)} duplicated (completed xs)
duplicate_fails xs h = absurd cc

completed-inj : (xs ys : List ℕ) → ◌≡◌ {A = Waited (List ℕ)} (completed xs) (completed ys) → xs ≡ ys
completed-inj xs ys h = cc

loop_messages :
    (expected : ℕ) (events : List Event) (seen : List ℕ)
    → length seen < expected
    → expected ≤ length seen + length (sources events)
    → HasSources events
    → ((v : ℕ) → count v seen + count v (sources events) ≤ 1)
    → (all_seen : List ℕ) × (message_loop expected events seen ≡ completed all_seen)
      × (length all_seen ≡ expected)
      × ((v : ℕ) → count v all_seen ≤ count v seen + count v (sources events))
unfolding message_loop
loop_messages expected [] seen few enough known once = absurd (omega arith)
loop_messages expected (dialed ∷ events) seen few enough known once =
    loop_messages expected events seen few enough known once
loop_messages expected (listened ∷ events) seen few enough known once =
    loop_messages expected events seen few enough known once
loop_messages expected (other ∷ events) seen few enough known once =
    loop_messages expected events seen few enough known once
loop_messages expected (behaviour other_gossip ∷ events) seen few enough known once =
    loop_messages expected events seen few enough known once
loop_messages expected (behaviour (subscribed peer) ∷ events) seen few enough known once =
    loop_messages expected events seen few enough known once
loop_messages expected (behaviour (message none) ∷ events) seen few enough known once = absurd known
loop_messages expected (behaviour (message (some x)) ∷ events) seen few enough known once =
    let new : elem x seen ≡ false = ground (arith, elem-count x seen, once x, ==_self x) in
    elim (Bool-cases (suc (length seen) == expected)) [
      | inl full ↦ (
        x ∷ seen,
        rw (new, full) refl,
        (==_iff (suc (length seen)) expected).0 full,
        λ v. omega arith,
      )
      | inr more ↦
          let (all_seen, returned, size, inside) =
            loop_messages expected events (x ∷ seen) (ground (arith, more)) (omega arith) known
              (λ v. omega (arith, once v)) in
          (all_seen, rw (new, more) returned, size, λ v. omega (arith, inside v))
    ]

-- If the number of instances fits in 64 bits, fewer sources are known than there are other
-- instances, and the messages have each a new source and are at least as many as are missing, the
-- wait for the messages ends with as many sources as there are other instances, each known before
-- or of one of the messages.
pub wait_messages_outcome :
    (test_instance_count : ℕ) (events : List Event) (seen : List ℕ)
    → 1 ≤ test_instance_count
    → test_instance_count < word
    → length seen + 1 < test_instance_count
    → test_instance_count ≤ length seen + length (sources events) + 1
    → HasSources events
    → ((v : ℕ) → count v seen + count v (sources events) ≤ 1)
    → (all_seen : List ℕ) × (wait_messages test_instance_count events seen ≡ completed all_seen)
      × (length all_seen + 1 ≡ test_instance_count)
      × ((v : ℕ) → count v all_seen ≤ count v seen + count v (sources events))
unfolding wait_messages
wait_messages_outcome n events seen some_instances fits few enough known once =
    let expected : wrapping_sub n 1 ≡ n - 1 = omega arith in
    let (all_seen, returned, size, inside) =
      loop_messages (n - 1) events seen (omega arith) (omega arith) known once in
    let early : ltb (length seen) (n - 1) ≡ true = lt→ltb (length seen) (n - 1) (omega arith) in
    (
      all_seen,
      subst
          (λ k.
            (if ltb (length seen) k then message_loop k events seen else completed seen)
            ≡ completed all_seen)
          (sym expected) (rw early returned),
      omega arith,
      inside,
    )

-- A wait that ends has no source twice.
completed_once :
    (expected : ℕ) (events : List Event) (seen all_seen : List ℕ)
    → HasNoRepeats seen
    → message_loop expected events seen ≡ completed all_seen
    → HasNoRepeats all_seen × (length all_seen ≡ expected)
unfolding message_loop
completed_once expected [] seen all_seen once h = absurd cc
completed_once expected (dialed ∷ events) seen all_seen once h =
    completed_once expected events seen all_seen once h
completed_once expected (listened ∷ events) seen all_seen once h =
    completed_once expected events seen all_seen once h
completed_once expected (other ∷ events) seen all_seen once h =
    completed_once expected events seen all_seen once h
completed_once expected (behaviour other_gossip ∷ events) seen all_seen once h =
    completed_once expected events seen all_seen once h
completed_once expected (behaviour (subscribed peer) ∷ events) seen all_seen once h =
    completed_once expected events seen all_seen once h
completed_once expected (behaviour (message none) ∷ events) seen all_seen once h = absurd cc
completed_once expected (behaviour (message (some x)) ∷ events) seen all_seen once h =
    elim (Bool-cases (elem x seen)) [
      | inl old ↦ absurd (duplicate_fails all_seen (rw old at h))
      | inr new ↦
          let once' : HasNoRepeats (x ∷ seen) =
            λ v. ground (arith, once v, elem-count x seen, new, ==_iff x v) in
          elim (Bool-cases (suc (length seen) == expected)) [
            | inl full ↦
                let same = completed-inj (x ∷ seen) all_seen (rw (new, full) at h) in
                subst (λ xs. HasNoRepeats xs × (length xs ≡ expected)) same
                  (once', (==_iff (suc (length seen)) expected).0 full)
            | inr more ↦
                completed_once expected events (x ∷ seen) all_seen once' (rw (new, more) at h)
          ]
    ]

pub wait_messages_once :
    (test_instance_count : ℕ) (events : List Event) (seen all_seen : List ℕ)
    → HasNoRepeats seen
    → wait_messages test_instance_count events seen ≡ completed all_seen
    → HasNoRepeats all_seen × (wrapping_sub test_instance_count 1 ≤ length all_seen)
unfolding wait_messages
wait_messages_once n events seen all_seen once h =
    elim (Bool-cases (ltb (length seen) (wrapping_sub n 1))) [
      | inl early ↦
          let (no_repeats, size) =
            completed_once (wrapping_sub n 1) events seen all_seen once (rw early at h) in
          (no_repeats, omega (arith, size))
      | inr late ↦
          let same = completed-inj seen all_seen (rw late at h) in
          subst (λ xs. HasNoRepeats xs × (wrapping_sub n 1 ≤ length xs)) same
            (once, le_of_not (length seen) (wrapping_sub n 1) late)
    ]
  where
    le_of_not : (a b : ℕ) → ltb a b ≡ false → b ≤ a
    le_of_not a b h = ground arith
