-- ===== src/Censoring.antt =====
-- The instances of the plan censoring: `Role` and `InstanceInfo` of censoring/src/main.rs, the removal of
-- the own info, and the choice of the victim in censoring/src/attacker.rs.
pub mod Attackers
pub mod Names
pub mod Honest
pub mod Rate
pub mod Publishing
use gossipsub_testground.Base.{
  ℕ, List, [], ◌∷◌, ◌++◌, Option, none, some, Bool, true, false, ◌&&◌, String, Outcome, panic, ok,
  expect, ◌>>=◌, ◌==◌, if◌then◌else◌, find, same_text,
}
use gossipsub_testground.Base.Decimal.{codes, to_string}
use gossipsub_testground.Metrics.Model.{Never}

pub data Role : Type 0 where
  publisher : Role
  lurker : Role
  attacker : Role

unfoldable pub is_honest : Role → Bool
is_honest publisher = true
is_honest lurker = true
is_honest attacker = false

unfoldable pub is_publisher : Role → Bool
is_publisher role = elim role [ publisher ↦ true | _ ↦ false ]

-- `From<&str>`: any other group id is unreachable.
unfoldable pub role_of : String → Outcome Never Role
role_of test_group_id =
    if same_text test_group_id "publishers"
    then ok publisher
    else if same_text test_group_id "lurkers"
    then ok lurker
    else if same_text test_group_id "attackers"
    then ok attacker
    else panic

-- What the plan uses of the ids and addresses of libp2p.
pub record Peers : Type 1 where
  pub PeerId : Type 0
  pub Multiaddr : Type 0
  pub same_peer : PeerId → PeerId → Bool

-- `{:?}` of a role.
abbrev pub role_name : Role → List ℕ
role_name publisher = codes "Publisher"
role_name lurker = codes "Lurker"
role_name attacker = codes "Attacker"

module _ (peers : Peers) where
  pub record InstanceInfo : Type 0 where
    pub global_seq : ℕ
    pub group_seq : ℕ
    pub peer_id : peers.PeerId
    pub multiaddr : peers.Multiaddr
    pub role : Role

  unfoldable pub name : InstanceInfo → List ℕ
  name info = role_name info.role ++ to_string info.group_seq

  -- `position` and `remove`: the infos without the first one of the peer.
  unfoldable pub without_self : peers.PeerId → List InstanceInfo → Outcome Never (List InstanceInfo)
  without_self peer_id [] = panic
  without_self peer_id (info ∷ infos) =
      let rest = without_self peer_id infos in
      if peers.same_peer info.peer_id peer_id
      then ok infos
      else (do others ← rest; ok (info ∷ others))

  unfoldable pub victim_of : List InstanceInfo → Outcome Never InstanceInfo
  victim_of participants =
      expect (find (λ info. is_publisher info.role && info.group_seq == 1) participants)
