-- ===== src/Exchange.antt =====
-- How the instances exchange their infos over a topic of Testground's sync service:
-- `publish_and_collect` of scoring/src/utils.rs, eth_consensus/simulation/src/utils.rs and
-- censoring/src/utils.rs, and `collect_attacker_info` of scoring/src/beacon_node.rs.
pub mod Agreed
use gossipsub_testground.Base.{
  ℕ, zero, suc, ◌≡◌, List, [], ◌∷◌, ◌++◌, Option, none, some, Outcome, ok, err, panic, ◌>>=◌, ok_or,
  if◌then◌else◌, same_text, String, wrapping_sub,
}

-- What the plans use of `serde_json`, and the errors of the client.
pub record Json : Type 1 where
  pub Value : Type 0
  pub Error : Type 0
  -- `Value::String(str)`, and the text of such a value.
  pub string : String → Value
  pub string_of : Value → Option String

-- What a subscription yields; a stream that ends yields no more.
pub data Item (json : Json) : Type 0 where
  value : json.Value → Item json
  failed : json.Error → Item json

pub data CollectError (json : Json) : Type 0 where
  not_encoded : CollectError json
  not_decoded : CollectError json
  not_published : CollectError json
  subscription : json.Error → CollectError json

-- The topics of the sync service, and what a subscription to one is yielded: `stream topic s` when
-- the service has come to the state `s`. A publication that fails gives `none`.
pub record Service (json : Json) : Type 1 where
  pub State : Type 0
  pub publish : (topic : String) → json.Value → State → Option State
  pub stream : (topic : String) → State → List (Item json)

-- The documented behaviour: a subscription yields the entries of its topic in the order in which they
-- are published, those from before it included.
pub record IsOrdered {json : Json} (service : Service json) : Type 0 where
  pub stream_of_publish :
      (topic name : String) (v : json.Value) (s t : service.State)
      → service.publish topic v s ≡ some t
      → service.stream name t ≡ (
          if same_text topic name
          then service.stream name s ++ (value v ∷ [])
          else service.stream name s)

module _ (json : Json) where
  module _ {A : Type 0} (decode : json.Value → Outcome (CollectError json) A) where
    -- The loop of `count` rounds; a stream that ends is `unreachable!()`.
    unfoldable pub collect : (count : ℕ) → List (Item json) → Outcome (CollectError json) (List A)
    collect zero items = ok []
    collect (suc n) [] = panic
    collect (suc n) (value v ∷ items) = do
      info ← decode v
      infos ← collect n items
      ok (info ∷ infos)
    collect (suc n) (failed e ∷ items) = err (subscription e)

    -- `others` is what the other instances publish meanwhile.
    module _ (service : Service json) (encode : A → Option json.Value) where
      unfoldable pub publish_and_collect :
          (others : service.State → service.State) (topic : String) (info : A) (count : ℕ)
          → service.State
          → Outcome (CollectError json) (List A)
      publish_and_collect others topic info count s = do
        serialized ← ok_or (encode info) not_encoded
        s' ← ok_or (service.publish topic serialized s) not_published
        collect count (service.stream topic (others s'))

  -- `serde_json::from_value(other)?` of the plans scoring and eth_consensus.
  abbrev pub from_value :
      {A : Type 0} → (json.Value → Option A) → json.Value → Outcome (CollectError json) A
  from_value parse v = ok_or (parse v) not_decoded

  -- The text of a `Value::String` of the plan censoring; another value is `unreachable!()`.
  abbrev pub from_text :
      {A : Type 0} → (String → Option A) → Option String → Outcome (CollectError json) A
  from_text parse none = panic
  from_text parse (some text) = ok_or (parse text) not_decoded

  abbrev pub from_string :
      {A : Type 0} → (String → Option A) → json.Value → Outcome (CollectError json) A
  from_string parse v = from_text parse (json.string_of v)

  abbrev pub as_string : Option String → Option json.Value
  as_string none = none
  as_string (some text) = some (json.string text)

  module _ (service : Service json) where
    -- The plans eth_consensus and censoring collect the infos of all instances.
    module _ {A : Type 0} (others : service.State → service.State) where
      unfoldable pub simulation_exchange :
          (parse : json.Value → Option A) (encode : A → Option json.Value)
          → (topic : String) (info : A) (test_instance_count : ℕ) → service.State
          → Outcome (CollectError json) (List A)
      simulation_exchange parse encode =
          publish_and_collect (from_value parse) service encode others

      unfoldable pub censoring_exchange :
          (parse : String → Option A) (print : A → Option String)
          → (info : A) (test_instance_count : ℕ) → service.State
          → Outcome (CollectError json) (List A)
      unfolding as_string
      censoring_exchange parse print =
          publish_and_collect (from_string parse) service (λ info. as_string (print info)) others
            "publish_and_collect"

    -- The peer ids of the attackers, the instances that are not of the group of beacon nodes, when
    -- the service has come to the given state.
    unfoldable pub collect_attacker_info :
        {PeerId : Type 0}
        → (json.Value → Option PeerId)
        → (test_instance_count test_group_instance_count : ℕ) → service.State
        → Outcome (CollectError json) (List PeerId)
    collect_attacker_info parse test_instance_count test_group_instance_count s =
        collect (from_value parse) (wrapping_sub test_instance_count test_group_instance_count)
          (service.stream "attacker_info" s)
