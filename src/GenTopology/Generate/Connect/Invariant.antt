-- ===== src/GenTopology/Generate/Connect/Invariant.antt =====
-- The invariant of the loop that tries connections, and that a round keeps it.
use gossipsub_testground.Base.{
  ℕ, ◌≤◌, ◌<◌, ◌≡◌, ◌≢◌, ◌⊎◌, inl, inr, List, [], ◌∷◌, Option, none, some, Bool, true, false, not,
  ◌&&◌, arith, length, ◌==◌, if◌then◌else◌, ==_iff, Bool-cases,
}
use mathlib.Core.Path.{subst}
use gossipsub_testground.Base.Counting.{count, count_if, count_if-append}
use gossipsub_testground.Base.Maps.{get, insert, length-insert, HasSortedKeys}
use gossipsub_testground.GenTopology.Params.{RangeInclusive}
use gossipsub_testground.GenTopology.Generate.Connect.{Links}
use gossipsub_testground.GenTopology.Generate.Connect.Possible.{is_pair}
use gossipsub_testground.GenTopology.Generate.Connect.Trial.{
  Node, IsFull, Tried, skipped, linked, with_link, get-with_link,
}
use gossipsub_testground.GenTopology.Generate.Connect.Views.{
  link, peers_of, link-with_link, push_peer-HasSortedKeys, peers_of-push_peer,
}

-- A node has drawn a number in the range, and has no more connections than that.
pub record IsBounded (range : RangeInclusive) (e : Node) : Type 0 where
  pub drawn_above : range.first ≤ e.0
  pub drawn_below : e.0 ≤ range.last
  pub within : length e.1 ≤ e.0

-- `p` has as many connections as it has drawn.
abbrev pub IsFullAt : ℕ → Links → Type 0
IsFullAt p l = (e : Node) × (get p l.topology ≡ some e) × IsFull e

abbrev pub IsLinked : ℕ → ℕ → Links → Type 0
IsLinked a b l = (f : Bool) × (link a b l ≡ some f)

abbrev out : Option Bool → ℕ
out none = 0
out (some f) = if f then 1 else 0

-- `cs` are the connections that are still to try.
pub record Invariant (range : RangeInclusive) (n : ℕ) (cs : List (ℕ × ℕ)) (l : Links) : Type 0 where
  pub node : (p : ℕ) → p < n → (e : Node) × (get p l.topology ≡ some e) × IsBounded range e
  pub symmetric : (a b : ℕ) (f : Bool) → link a b l ≡ some f → link b a l ≡ some (not f)
  pub inside : (a b : ℕ) (f : Bool) → link a b l ≡ some f → (a < n) × (b < n) × (a ≢ b)
  pub sorted : HasSortedKeys l.outbound_peers
  pub outbound : (a b : ℕ) → count b (peers_of a l.outbound_peers) ≡ out (link a b l)
  pub proper : (a b : ℕ) → 0 < count_if (is_pair a b) cs → (a < b) × (b < n)
  pub single : (a b : ℕ) → count_if (is_pair a b) cs ≤ 1
  pub pending : (a b : ℕ) → 0 < count_if (is_pair a b) cs → link a b l ≡ none
  pub settled :
      (a b : ℕ)
      → a < b
      → b < n
      → count_if (is_pair a b) cs ≡ 0
      → IsLinked a b l ⊎ IsFullAt a l ⊎ IsFullAt b l

IsBounded-node :
    (range : RangeInclusive) (n : ℕ) (cs : List (ℕ × ℕ)) (l : Links) (p : ℕ) (e : Node)
    → Invariant range n cs l
    → p < n
    → get p l.topology ≡ some e
    → IsBounded range e
IsBounded-node range n cs l p e inv lt h =
    let (e', q, bounded) = inv.node p lt in
    let same : e' ≡ e = cc in subst (IsBounded range) same bounded

IsBounded-insert :
    (range : RangeInclusive) (e : Node) (j : ℕ) (f : Bool)
    → IsBounded range e
    → length e.1 < e.0
    → IsBounded range (e.0, insert j f e.1)
IsBounded-insert range e j f h room = record {
  drawn_above = h.drawn_above;
  drawn_below = h.drawn_below;
  within = omega (arith, length-insert j f e.1);
}

module _ (range : RangeInclusive) (n a b : ℕ) (cs : List (ℕ × ℕ)) (l : Links) (ea eb : Node)
    (f : Bool) (inv : Invariant range n ((a, b) ∷ cs) l) (ha : get a l.topology ≡ some ea)
    (hb : get b l.topology ≡ some eb) (room_a : length ea.1 < ea.0)
    (room_b : length eb.1 < eb.0) where
  after_link : Links
  after_link = with_link a b f ea eb l

  ordered : (a < b) × (b < n)
  ordered = inv.proper a b (ground arith)

  links :
      (i j : ℕ)
      → link i j after_link ≡ (
          if i == a && j == b
          then some f
          else if i == b && j == a
          then some (not f)
          else link i j l)
  unfolding after_link
  links i j = link-with_link i j a b f ea eb l ha hb (let (lt, _) = ordered in omega arith)

  linked-node :
      (p : ℕ) → p < n → (e : Node) × (get p after_link.topology ≡ some e) × IsBounded range e
  unfolding after_link
  linked-node p lt = elim (Bool-cases (p == b)) [
    | inl eq ↦ (
      (eb.0, insert a (not f) eb.1),
      ground (arith, get-with_link p a b f ea eb l),
      IsBounded-insert range eb a (not f) (IsBounded-node range n _ l b eb inv ordered.1 hb) room_b,
    )
    | inr ne ↦ elim (Bool-cases (p == a)) [
      | inl eq ↦ (
        (ea.0, insert b f ea.1),
        ground (arith, get-with_link p a b f ea eb l),
        IsBounded-insert range ea b f
            (IsBounded-node range n _ l a ea inv (let (lt', bn) = ordered in omega arith) ha)
            room_a,
      )
      | inr ne' ↦
          let (e, q, bounded) = inv.node p lt in
          (e, ground (arith, get-with_link p a b f ea eb l, q), bounded)
    ]
  ]

  linked-symmetric :
      (i j : ℕ) (g : Bool) → link i j after_link ≡ some g → link j i after_link ≡ some (not g)
  linked-symmetric i j g e = ground (arith, ordered, links i j, links j i, inv.symmetric i j g)

  linked-inside : (i j : ℕ) (g : Bool) → link i j after_link ≡ some g → (i < n) × (j < n) × (i ≢ j)
  linked-inside i j g e = ground (arith, ordered, links i j, inv.inside i j g)

  linked-sorted : HasSortedKeys after_link.outbound_peers
  unfolding after_link with_link
  linked-sorted = elim (Bool-cases f) [
    | inl e ↦ rw e (push_peer-HasSortedKeys a b _ inv.sorted)
    | inr e ↦ rw e (push_peer-HasSortedKeys b a _ inv.sorted)
  ]

  linked-outbound :
      (i j : ℕ) → count j (peers_of i after_link.outbound_peers) ≡ out (link i j after_link)
  unfolding after_link with_link
  linked-outbound i j = ground (
    arith,
    ordered,
    links i j,
    inv.outbound i j,
    inv.pending a b,
    inv.symmetric b a true,
    inv.symmetric b a false,
    peers_of-push_peer i a b l.outbound_peers inv.sorted,
    peers_of-push_peer i b a l.outbound_peers inv.sorted,
    count_if-append (λ x. x == j) (peers_of i l.outbound_peers) (b ∷ []),
    count_if-append (λ x. x == j) (peers_of i l.outbound_peers) (a ∷ []),
  )

  -- A node that is full stays full.
  linked-IsFullAt : (p : ℕ) → IsFullAt p l → IsFullAt p after_link
  unfolding after_link
  linked-IsFullAt p (e, q, full) = elim (Bool-cases (p == b)) [
    | inl eq ↦ absurd (ground (arith, hb, q, full, (==_iff p b).0 eq))
    | inr ne ↦ elim (Bool-cases (p == a)) [
      | inl eq ↦ absurd (ground (arith, ha, q, full, (==_iff p a).0 eq))
      | inr ne' ↦ (e, ground (arith, get-with_link p a b f ea eb l, q), full)
    ]
  ]

  IsLinked-IsLinked : (i j : ℕ) → IsLinked i j l → IsLinked i j after_link
  IsLinked-IsLinked i j (g, e) = elim (Bool-cases (i == a && j == b)) [
    | inl eq ↦ (f, ground (arith, links i j))
    | inr ne ↦ elim (Bool-cases (i == b && j == a)) [
      | inl eq ↦ (not f, ground (arith, links i j))
      | inr ne' ↦ (g, ground (arith, links i j))
    ]
  ]

  IsLinked-settled :
      (i j : ℕ)
      → i < j
      → j < n
      → count_if (is_pair i j) cs ≡ 0
      → IsLinked i j after_link ⊎ IsFullAt i after_link ⊎ IsFullAt j after_link
  IsLinked-settled i j lt bound none_left = elim (Bool-cases (i == a && j == b)) [
    | inl eq ↦ inl (f, ground (arith, links i j))
    | inr ne ↦ elim (inv.settled i j lt bound (ground arith)) [
      | inl old ↦ inl (IsLinked-IsLinked i j old)
      | inr (inl old) ↦ inr (inl (linked-IsFullAt i old))
      | inr (inr old) ↦ inr (inr (linked-IsFullAt j old))
    ]
  ]

  linked-Invariant : Invariant range n cs after_link
  linked-Invariant = record {
    node = linked-node;
    symmetric = linked-symmetric;
    inside = linked-inside;
    sorted = linked-sorted;
    outbound = linked-outbound;
    proper = λ i j h. inv.proper i j (ground arith);
    single = λ i j. ground (arith, inv.single i j);
    pending = λ i j h.
        ground (arith, ordered, inv.proper i j, links i j, inv.pending i j, inv.single i j);
    settled = IsLinked-settled;
  }

skipped-Invariant :
    (range : RangeInclusive) (n a b : ℕ) (cs : List (ℕ × ℕ)) (l : Links) (ea eb : Node)
    → Invariant range n ((a, b) ∷ cs) l
    → get a l.topology ≡ some ea
    → get b l.topology ≡ some eb
    → IsFull ea ⊎ IsFull eb
    → Invariant range n cs l
skipped-Invariant range n a b cs l ea eb inv ha hb full = record {
  node = inv.node;
  symmetric = inv.symmetric;
  inside = inv.inside;
  sorted = inv.sorted;
  outbound = inv.outbound;
  proper = λ i j h. inv.proper i j (ground arith);
  single = λ i j. ground (arith, inv.single i j);
  pending = λ i j h. inv.pending i j (ground arith);
  settled = λ i j lt bound none_left. elim (Bool-cases (a == i && b == j)) [
    | inl eq ↦ elim full [
      | inl h ↦ inr (inl (ea, ground arith, h))
      | inr h ↦ inr (inr (eb, ground arith, h))
    ]
    | inr ne ↦ inv.settled i j lt bound (ground arith)
  ];
}

pub Tried-Invariant :
    (range : RangeInclusive) (n a b : ℕ) (cs : List (ℕ × ℕ)) (l l' : Links) (ea eb : Node)
    → Invariant range n ((a, b) ∷ cs) l
    → get a l.topology ≡ some ea
    → get b l.topology ≡ some eb
    → Tried a b ea eb l l'
    → Invariant range n cs l'
unfolding after_link
Tried-Invariant range n a b cs l l' ea eb inv ha hb (skipped full e) =
    rw e (skipped-Invariant range n a b cs l ea eb inv ha hb full)
Tried-Invariant range n a b cs l l' ea eb inv ha hb (linked f room_a room_b e) =
    rw e (linked-Invariant range n a b cs l ea eb f inv ha hb room_a room_b)
