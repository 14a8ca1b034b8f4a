-- ===== src/Attacker/Wire.antt =====
-- What the attackers use of the fork `libp2p_testground` and of `prost`: the RPC of gossipsub, the
-- encoded lengths, and the conversion to protobuf. The parts of a message have no structure here.
use gossipsub_testground.Base.{ℕ, ◌≤◌, ◌<◌, ◌≡◌, Bool, if◌then◌else◌, List, Option, some}

pub record Wire : Type 1 where
  pub PeerId : Type 0
  pub TopicHash : Type 0
  pub MessageId : Type 0
  pub PeerInfo : Type 0
  pub RawMessage : Type 0
  pub Message : Type 0
  pub SubOpts : Type 0
  pub IHave : Type 0
  pub IWant : Type 0
  pub Graft : Type 0
  pub Prune : Type 0

module _ (w : Wire) where
  -- `rpc_proto::ControlMessage`
  pub record ControlMessage : Type 0 where
    pub ihave : List w.IHave
    pub iwant : List w.IWant
    pub graft : List w.Graft
    pub prune : List w.Prune

  -- `rpc_proto::Rpc`
  pub record Rpc : Type 0 where
    pub subscriptions : List w.SubOpts
    pub publish : List w.Message
    pub control : Option (ControlMessage)

  -- `encoded_len`, `max_transmit_size` of the configuration, and `(x as f64 * 1.05) as usize`.
  pub record Codec : Type 0 where
    pub message_len : w.Message → ℕ
    pub subscription_len : w.SubOpts → ℕ
    pub ihave_len : w.IHave → ℕ
    pub iwant_len : w.IWant → ℕ
    pub graft_len : w.Graft → ℕ
    pub prune_len : w.Prune → ℕ
    pub control_len : ControlMessage → ℕ
    pub rpc_len : Rpc → ℕ
    pub max_transmit_size : ℕ
    pub with_five_percent : ℕ → ℕ

-- What the attackers use of the crate `delay_map`: `HashSetDelay`, a set of which each key has a
-- delay in seconds. `poll_next` takes the time of the call.
pub data Poll (K : Type 0) : Type 0 where
  ready_key : K → Poll K
  ready_error : Poll K
  ready_none : Poll K
  pending : Poll K

pub record DelaySet (K : Type 0) : Type 1 where
  pub Set : Type 0
  pub with_delay : ℕ → Set
  pub insert_key : K → Set → Set
  -- `none` is the panic of the timer underneath at a delay that is too long.
  pub insert_at : K → ℕ → Set → Option Set
  pub poll_next : ℕ → Set → Poll K × Set

-- The documented behaviour: `insert` takes the set's own delay, `insert_at` the given one, each
-- replaces the delay of a key that is there; `insert_at` panics at no delay up to `max_delay`; a poll that returns a key or an error removes an entry.
pub record IsDelaySet {K : Type 0} (same : K → K → Bool) (d : DelaySet K) : Type 1 where
  pub max_delay : ℕ
  pub default_delay : d.Set → ℕ
  pub delay : d.Set → K → Option ℕ
  pub size : d.Set → ℕ
  pub default_of_new : (n : ℕ) → default_delay (d.with_delay n) ≡ n
  pub default_of_insert : (k : K) (s : d.Set) → default_delay (d.insert_key k s) ≡ default_delay s
  pub default_of_insert_at :
      (k : K) (n : ℕ) (s t : d.Set) → d.insert_at k n s ≡ some t → default_delay t ≡ default_delay s
  pub delay_of_insert :
      (k j : K) (s : d.Set)
      → delay (d.insert_key k s) j ≡ (if same j k then some (default_delay s) else delay s j)
  pub delay_of_insert_at :
      (k j : K) (n : ℕ) (s t : d.Set)
      → d.insert_at k n s ≡ some t
      → delay t j ≡ (if same j k then some n else delay s j)
  pub accepts :
      (k : K) (n : ℕ) (s : d.Set) → n ≤ max_delay → (t : d.Set) × (d.insert_at k n s ≡ some t)
  pub size_of_key :
      (now : ℕ) (s : d.Set) (k : K)
      → (d.poll_next now s).0 ≡ ready_key k
      → size (d.poll_next now s).1 < size s
  pub size_of_error :
      (now : ℕ) (s : d.Set)
      → (d.poll_next now s).0 ≡ ready_error
      → size (d.poll_next now s).1 < size s
