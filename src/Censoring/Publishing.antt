-- ===== src/Censoring/Publishing.antt =====
-- The loop of an honest peer of censoring/src/honest.rs, event by event: the guard of the branch that
-- publishes, and the messages that switch it.
use gossipsub_testground.Base.{◌≡◌, refl, ap, ◌∙◌, List, [], ◌∷◌, ◌++◌, Option, none, some, String}

pub data HonestMessage : Type 0 where
  subscribe : (topic : String) → HonestMessage
  start_publishing : HonestMessage
  stop_publishing : HonestMessage

pub data PublishState : Type 0 where
  awaiting : PublishState
  started : PublishState
  stopped : PublishState

-- What `select!` can find ready.
pub data Event : Type 0 where
  score_tick : Event
  publish_tick : Event
  swarm_event : Event
  received : (message : HonestMessage) → Event

pub data Action : Type 0 where
  record_peer_scores : Action
  publish_message : Action
  subscribe_to : (topic : String) → Action

abbrev pub switched : HonestMessage → PublishState → PublishState × List Action
switched (subscribe topic) state = (state, subscribe_to topic ∷ [])
switched start_publishing state = (started, [])
switched stop_publishing state = (stopped, [])

-- A round of the loop. The branch that publishes is disabled unless the state is `started`.
unfoldable pub round : Event → PublishState → Option (PublishState × List Action)
round score_tick state = some (state, record_peer_scores ∷ [])
round publish_tick awaiting = none
round publish_tick started = some (started, publish_message ∷ [])
round publish_tick stopped = none
round swarm_event state = some (state, [])
round (received message) state = some (switched message state)

abbrev and_then :
    List Action → Option (PublishState × List Action) → Option (PublishState × List Action)
and_then made none = none
and_then made (some (state, more)) = some (state, made ++ more)

-- The rounds of a sequence of events; `none` if a disabled branch is among them.
unfoldable pub rounds : List Event → PublishState → Option (PublishState × List Action)
unfolding round and_then
rounds [] state = some (state, [])
rounds (event ∷ events) state = elim (round event state) [
  | none ↦ none
  | some (next, made) ↦ and_then made (rounds events next)
]

-- Independently of the state: what the last switch among the events says.
abbrev pub publishes_after : (before : PublishState) → List Event → PublishState
publishes_after before [] = before
publishes_after before (received start_publishing ∷ events) = publishes_after started events
publishes_after before (received stop_publishing ∷ events) = publishes_after stopped events
publishes_after before (received (subscribe topic) ∷ events) = publishes_after before events
publishes_after before (score_tick ∷ events) = publishes_after before events
publishes_after before (publish_tick ∷ events) = publishes_after before events
publishes_after before (swarm_event ∷ events) = publishes_after before events

and_then-some :
    (made : List Action) (rest : Option (PublishState × List Action))
    {result : PublishState × List Action}
    → and_then made rest ≡ some result
    → (tail : PublishState × List Action) × (rest ≡ some tail)
and_then-some made none h = absurd cc
and_then-some made (some tail) h = (tail, refl)

-- An event that an accepted sequence begins with.
rounds-cons :
    (event : Event) (events : List Event) (state : PublishState)
    {result : PublishState × List Action}
    → rounds (event ∷ events) state ≡ some result
    → (next : PublishState) × (tail : PublishState × List Action) × (publishes_after state
          (event ∷ [])
        ≡ next)
      × (rounds events next ≡ some tail)
      × (event ≡ publish_tick → state ≡ started)
unfolding rounds round
rounds-cons score_tick events state h =
    let (tail, rest) = and_then-some (record_peer_scores ∷ []) (rounds events state) h in
    (state, tail, refl, rest, λ e. absurd cc)
rounds-cons publish_tick events awaiting h = absurd cc
rounds-cons publish_tick events started h =
    let (tail, rest) = and_then-some (publish_message ∷ []) (rounds events started) h in
    (started, tail, refl, rest, λ e. refl)
rounds-cons publish_tick events stopped h = absurd cc
rounds-cons swarm_event events state h =
    let (tail, rest) = and_then-some [] (rounds events state) h in
    (state, tail, refl, rest, λ e. absurd cc)
rounds-cons (received (subscribe topic)) events state h =
    let (tail, rest) = and_then-some (subscribe_to topic ∷ []) (rounds events state) h in
    (state, tail, refl, rest, λ e. absurd cc)
rounds-cons (received start_publishing) events state h =
    let (tail, rest) = and_then-some [] (rounds events started) h in
    (started, tail, refl, rest, λ e. absurd cc)
rounds-cons (received stop_publishing) events state h =
    let (tail, rest) = and_then-some [] (rounds events stopped) h in
    (stopped, tail, refl, rest, λ e. absurd cc)

publishes_after-cons :
    (event : Event) (events : List Event) (state : PublishState)
    → publishes_after state (event ∷ events)
      ≡ publishes_after (publishes_after state (event ∷ [])) events
publishes_after-cons score_tick events state = refl
publishes_after-cons publish_tick events state = refl
publishes_after-cons swarm_event events state = refl
publishes_after-cons (received (subscribe topic)) events state = refl
publishes_after-cons (received start_publishing) events state = refl
publishes_after-cons (received stop_publishing) events state = refl

ticks_started :
    (before after : List Event) (state : PublishState) {result : PublishState × List Action}
    → rounds (before ++ publish_tick ∷ after) state ≡ some result
    → publishes_after state before ≡ started
ticks_started [] after state h =
    let (next, tail, moved, rest, only) = rounds-cons publish_tick after state h in only refl
ticks_started (event ∷ before) after state h =
    let (next, tail, moved, rest, only) =
      rounds-cons event (before ++ publish_tick ∷ after) state h in
    publishes_after-cons event before state
    ∙ ap (λ s. publishes_after s before) moved
    ∙ ticks_started before after next rest

-- Where the loop of an honest peer, started awaiting, takes the branch that publishes, the last
-- switch among the messages before was a start.
pub publishes_only_started :
    (before after : List Event) (result : PublishState × List Action)
    → rounds (before ++ publish_tick ∷ after) awaiting ≡ some result
    → publishes_after awaiting before ≡ started
publishes_only_started before after result = ticks_started before after awaiting
