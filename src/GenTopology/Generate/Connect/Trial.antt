-- ===== src/GenTopology/Generate/Connect/Trial.antt =====
-- One round of the loop that tries connections: it does not panic on two nodes of the topology, and
-- either leaves everything as it was or adds one link at both ends.
use gossipsub_testground.Base.{
  ℕ, ◌≤◌, ◌<◌, ◌≡◌, ◌≢◌, refl, ◌⊎◌, inl, inr, List, some, Bool, not, arith, ok, length, leb, ◌==◌,
  if◌then◌else◌, Bool-cases,
}
use gossipsub_testground.Base.Maps.{get, insert, get-insert}
use gossipsub_testground.GenTopology.Rng.{Rng}
use gossipsub_testground.GenTopology.Generate.Connect.{
  Links, push_peer, is_full, add_link, try_connection,
}

-- A node of the topology: the number of connections to reach, and the connections.
abbrev pub Node : Type 0
Node = ℕ × List (ℕ × Bool)

abbrev pub IsFull : Node → Type 0
IsFull e = e.0 ≤ length e.1

-- The links with one more between `a` and `b`, outbound for `a` if `f`.
unfoldable pub with_link : ℕ → ℕ → Bool → Node → Node → Links → Links
with_link a b f ea eb l = record {
  topology = insert b (eb.0, insert a (not f) eb.1) (insert a (ea.0, insert b f ea.1) l.topology);
  outbound_peers = if f then push_peer a b l.outbound_peers else push_peer b a l.outbound_peers;
}

pub data Tried (a b : ℕ) (ea eb : Node) (l l' : Links) : Type 0 where
  skipped : IsFull ea ⊎ IsFull eb → l' ≡ l → Tried a b ea eb l l'
  linked :
      (f : Bool)
      → length ea.1 < ea.0
      → length eb.1 < eb.0
      → l' ≡ with_link a b f ea eb l
      → Tried a b ea eb l l'

pub get-with_link :
    (p a b : ℕ) (f : Bool) (ea eb : Node) (l : Links)
    → get p (with_link a b f ea eb l).topology ≡ (
        if p == b
        then some (eb.0, insert a (not f) eb.1)
        else if p == a
        then some (ea.0, insert b f ea.1)
        else get p l.topology)
unfolding with_link
get-with_link p a b f ea eb l = ground (
  arith,
  get-insert p b (eb.0, insert a (not f) eb.1) (insert a (ea.0, insert b f ea.1) l.topology),
  get-insert p a (ea.0, insert b f ea.1) l.topology,
)

add_link-with_link :
    (a b : ℕ) (f : Bool) (ea eb : Node) (l : Links)
    → get a l.topology ≡ some ea
    → get b l.topology ≡ some eb
    → a ≢ b
    → add_link a b f l ≡ ok (with_link a b f ea eb l)
unfolding add_link with_link
add_link-with_link a b f ea eb l ha hb ne =
    ground (arith, get-insert b a (ea.0, insert b f ea.1) l.topology)

module _ (r : Rng) where
  pub try_connection-Tried :
      (a b : ℕ) (ea eb : Node) (l : Links) (gen : r.State)
      → get a l.topology ≡ some ea
      → get b l.topology ≡ some eb
      → a ≢ b
      → (l' : Links) × (gen' : r.State) × (try_connection r (a, b) (l, gen) ≡ ok (l', gen'))
        × Tried a b ea eb l l'
  unfolding try_connection is_full
  try_connection-Tried a b ea eb l gen ha hb ne = elim (Bool-cases (leb ea.0 (length ea.1))) [
    | inl full ↦ (l, gen, rw ha (rw full refl), skipped (inl (ground arith)) refl)
    | inr room ↦ elim (Bool-cases (leb eb.0 (length eb.1))) [
      | inl full ↦ (l, gen, rw (ha, room, hb, full) refl, skipped (inr (ground arith)) refl)
      | inr room' ↦
          let f = (r.gen_ratio gen 3 5).0 in
          (
            with_link a b f ea eb l,
            (r.gen_ratio gen 3 5).1,
            rw (ha, room, hb, room', add_link-with_link a b f ea eb l ha hb ne) refl,
            linked f (ground arith) (ground arith) refl,
          )
    ]
  ]
