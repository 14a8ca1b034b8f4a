-- ===== src/GenTopology/Generate/Connect/Views.antt =====
-- How the links are read: the flag between two nodes, and the peers that a node dials.
use gossipsub_testground.Base.{
  ℕ, ◌<◌, ◌≡◌, ◌≢◌, List, [], ◌∷◌, ◌++◌, Option, none, some, Bool, not, ◌&&◌, arith, ◌==◌,
  if◌then◌else◌, All,
}
use gossipsub_testground.Base.Maps.{get, get-insert, HasSortedKeys, get-above}
use gossipsub_testground.GenTopology.Generate.Connect.{Links, push_peer}
use gossipsub_testground.GenTopology.Generate.Connect.Trial.{Node, with_link, get-with_link}

abbrev flag_of : ℕ → Option Node → Option Bool
flag_of b none = none
flag_of b (some e) = get b e.1

-- `some f` if `a` has a connection to `b`, with `f` its outbound flag.
unfoldable pub link : ℕ → ℕ → Links → Option Bool
link a b l = flag_of b (get a l.topology)

abbrev peers_in : Option (List ℕ) → List ℕ
peers_in none = []
peers_in (some peers) = peers

-- The peers that `a` dials.
unfoldable pub peers_of : ℕ → List (ℕ × List ℕ) → List ℕ
peers_of a m = peers_in (get a m)

pub link-with_link :
    (i j a b : ℕ) (f : Bool) (ea eb : Node) (l : Links)
    → get a l.topology ≡ some ea
    → get b l.topology ≡ some eb
    → a ≢ b
    → link i j (with_link a b f ea eb l)
      ≡ (if i == a && j == b then some f else if i == b && j == a then some (not f) else link i j l)
unfolding link
link-with_link i j a b f ea eb l ha hb ne =
    ground
      (arith, get-with_link i a b f ea eb l, get-insert j a (not f) eb.1, get-insert j b f ea.1)

push_peer-above :
    (k a b : ℕ) (m : List (ℕ × List ℕ))
    → k < a
    → All (λ d. k < d.0) m
    → All (λ d. k < d.0) (push_peer a b m)
unfolding push_peer
push_peer-above k a b [] lt h = (lt, tt)
push_peer-above k a b ((i, ps) ∷ m) lt h = ground (arith, push_peer-above k a b m lt h.1)

All-above_trans :
    (k i : ℕ) (m : List (ℕ × List ℕ)) → k < i → All (λ d. i < d.0) m → All (λ d. k < d.0) m
All-above_trans k i [] lt h = tt
All-above_trans k i (d ∷ m) lt h = (omega arith, All-above_trans k i m lt h.1)

pub push_peer-HasSortedKeys :
    (a b : ℕ) (m : List (ℕ × List ℕ)) → HasSortedKeys m → HasSortedKeys (push_peer a b m)
unfolding push_peer
push_peer-HasSortedKeys a b [] s = (tt, tt)
push_peer-HasSortedKeys a b ((i, ps) ∷ m) s =
    ground (
      arith,
      push_peer-above i a b m,
      push_peer-HasSortedKeys a b m s.1,
      All-above_trans a i m,
      s.0,
    )

pub peers_of-push_peer :
    (i a b : ℕ) (m : List (ℕ × List ℕ))
    → HasSortedKeys m
    → peers_of i (push_peer a b m) ≡ (if i == a then peers_of i m ++ b ∷ [] else peers_of i m)
unfolding peers_of push_peer
peers_of-push_peer i a b [] s = ground arith
peers_of-push_peer i a b ((k, ps) ∷ m) s =
    ground (arith, peers_of-push_peer i a b m s.1, get-above i k m, s.0)
