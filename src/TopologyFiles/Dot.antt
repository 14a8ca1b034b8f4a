-- ===== src/TopologyFiles/Dot.antt =====
-- The text of the dot file, and a reader of it.
use gossipsub_testground.Base.{
  ℕ, ◌≡◌, ◌≢◌, ◌<◌, refl, List, [], ◌∷◌, ◌++◌, Option, none, some, Bool, false, ◌&&◌, ◌==◌, leb,
  if◌then◌else◌, word, All, All-append, append_assoc, arith,
}
use gossipsub_testground.Base.Decimal.{
  codes, to_string, parse_u64, equal, parse_u64-to_string, IsDigit, to_string-digits,
}
use gossipsub_testground.TopologyFiles.{newline, edge_line, writeln}

infixl 4 ◌>>=◌
abbrev ◌>>=◌ : {A B : Type 0} → Option A → (A → Option B) → Option B
none >>= next = none
some x >>= next = next x

abbrev onto : ℕ → List (List ℕ) → List (List ℕ)
onto c [] = (c ∷ []) ∷ []
onto c (l ∷ ls) = (c ∷ l) ∷ ls

unfoldable pub lines : List ℕ → List (List ℕ)
unfolding onto
lines [] = []
lines (c ∷ cs) = let rest = lines cs in if c == newline then [] ∷ rest else onto c rest

abbrev strip_prefix : (prefix text : List ℕ) → Option (List ℕ)
strip_prefix [] text = some text
strip_prefix (c ∷ cs) [] = none
strip_prefix (c ∷ cs) (x ∷ xs) = if x == c then strip_prefix cs xs else none

abbrev is_digit : ℕ → Bool
is_digit c = leb b'0' c && leb c b'9'

abbrev and_digit : ℕ → List ℕ × List ℕ → List ℕ × List ℕ
and_digit c (digits, rest) = (c ∷ digits, rest)

-- The digits in front of a text, and the text behind them.
unfoldable pub span_digits : List ℕ → List ℕ × List ℕ
unfolding and_digit
span_digits [] = ([], [])
span_digits (c ∷ cs) = if is_digit c then and_digit c (span_digits cs) else ([], c ∷ cs)

unfoldable pub read_number : List ℕ → Option (ℕ × List ℕ)
read_number text = do let parts = span_digits text; n ← parse_u64 parts.0; some (n, parts.1)

unfoldable pub read_edge : List ℕ → Option (ℕ × ℕ)
read_edge line = do
  first ← strip_prefix (9 ∷ []) line
  (peer_a, rest) ← read_number first
  second ← strip_prefix (codes " -> ") rest
  (peer_b, rest') ← read_number second
  if equal rest' (codes ";") then some (peer_a, peer_b) else none

unfoldable pub read_edges : List (List ℕ) → Option (List (ℕ × ℕ))
read_edges [] = none
read_edges (l ∷ ls) =
    if equal l (codes "}") then some [] else (do e ← read_edge l; es ← read_edges ls; some (e ∷ es))

abbrev pub read_body : List (List ℕ) → Option (List (ℕ × ℕ))
read_body [] = none
read_body (l ∷ ls) = if equal l (codes "digraph {") then read_edges ls else none

-- The edges of a graph in the notation of Graphviz, one to a line.
unfoldable pub read_dot : List ℕ → Option (List (ℕ × ℕ))
unfolding read_body
read_dot text = read_body (lines text)

abbrev pub edges_from : ℕ → List ℕ → List (ℕ × ℕ)
edges_from peer_a [] = []
edges_from peer_a (peer_b ∷ peers) = (peer_a, peer_b) ∷ edges_from peer_a peers

-- The dialed edges of a network.
abbrev pub edges : List (ℕ × List ℕ) → List (ℕ × ℕ)
edges [] = []
edges ((peer_a, peers) ∷ rest) = edges_from peer_a peers ++ edges rest

abbrev pub edge_lines : List (ℕ × ℕ) → List ℕ
edge_lines [] = []
edge_lines ((peer_a, peer_b) ∷ rest) = writeln (edge_line peer_a peer_b) ++ edge_lines rest

abbrev pub dot_text : List (ℕ × ℕ) → List ℕ
dot_text es = writeln (codes "digraph {") ++ (edge_lines es ++ writeln (codes "}"))

lines-writeln :
    (line rest : List ℕ)
    → All (λ c. c ≢ newline) line
    → lines (writeln line ++ rest) ≡ line ∷ lines rest
unfolding lines
lines-writeln [] rest h = refl
lines-writeln (c ∷ line) rest h = rw (lines-writeln line rest h.1) (ground arith)

span_digits-append :
    (digits : List ℕ) (c : ℕ) (rest : List ℕ)
    → All IsDigit digits
    → is_digit c ≡ false
    → span_digits (digits ++ (c ∷ rest)) ≡ (digits, c ∷ rest)
unfolding span_digits
span_digits-append [] c rest h stops = rw stops refl
span_digits-append (d ∷ digits) c rest h stops =
    rw (span_digits-append digits c rest h.1 stops) (ground arith)

read_number-to_string :
    (n c : ℕ) (rest : List ℕ)
    → n < word
    → is_digit c ≡ false
    → read_number (to_string n ++ (c ∷ rest)) ≡ some (n, c ∷ rest)
unfolding read_number
read_number-to_string n c rest fits stops =
    rw
      (
        span_digits-append (to_string n) c rest (to_string-digits n) stops,
        parse_u64-to_string n fits,
      )
      refl

read_edge-edge_line : (a b : ℕ) → a < word → b < word → read_edge (edge_line a b) ≡ some (a, b)
unfolding read_edge edge_line
read_edge-edge_line a b ha hb =
    rw
      (
        read_number-to_string a b' ' (b'-' ∷ b'>' ∷ b' ' ∷ (to_string b ++ codes ";")) ha refl,
        read_number-to_string b b';' [] hb refl,
      )
      refl

inside_of_digits : (xs : List ℕ) → All IsDigit xs → All (λ c. c ≢ newline) xs
inside_of_digits [] h = tt
inside_of_digits (x ∷ xs) h = (λ same. absurd (omega arith), inside_of_digits xs h.1)

edge_line-inside : (a b : ℕ) → All (λ c. c ≢ newline) (edge_line a b)
unfolding edge_line
edge_line-inside a b =
    let digits = λ (n : ℕ). inside_of_digits (to_string n) (to_string-digits n) in
    let Inside = λ (c : ℕ). c ≢ newline in
    (
      omega arith,
      All-append Inside (to_string a) (codes " -> " ++ (to_string b ++ codes ";")) (digits a) (
          All-append Inside (codes " -> ") (to_string b ++ codes ";") (omega arith)
            (All-append Inside (to_string b) (codes ";") (digits b) (omega arith))),
    )

abbrev pub Fits : ℕ × ℕ → Type 0
Fits e = (e.0 < word) × (e.1 < word)

not_last : (a b : ℕ) → equal (edge_line a b) (codes "}") ≡ false
unfolding edge_line
not_last a b = refl

read_edges-cons :
    (line : List ℕ) (e : ℕ × ℕ) (ls : List (List ℕ)) (es : List (ℕ × ℕ))
    → equal line (codes "}") ≡ false
    → read_edge line ≡ some e
    → read_edges ls ≡ some es
    → read_edges (line ∷ ls) ≡ some (e ∷ es)
unfolding read_edges
read_edges-cons line e ls es other read more = rw (other, read, more) refl

read_edges-edge_lines :
    (es : List (ℕ × ℕ))
    → All Fits es
    → read_edges (lines (edge_lines es ++ writeln (codes "}"))) ≡ some es
unfolding read_edges lines
read_edges-edge_lines [] fits = refl
read_edges-edge_lines ((a, b) ∷ es) ((ha, hb), fits) =
    rw
      (
        append_assoc (writeln (edge_line a b)) (edge_lines es) (writeln (codes "}")),
        lines-writeln (edge_line a b) (edge_lines es ++ writeln (codes "}")) (edge_line-inside a b),
      )
      (read_edges-cons (edge_line a b) (a, b) (lines (edge_lines es ++ writeln (codes "}"))) es
        (not_last a b) (read_edge-edge_line a b ha hb) (read_edges-edge_lines es fits))

-- The dot file of edges whose ends fit in 64 bits reads back as these edges.
pub read_dot-dot_text : (es : List (ℕ × ℕ)) → All Fits es → read_dot (dot_text es) ≡ some es
unfolding read_dot
read_dot-dot_text es fits =
    rw (lines-writeln (codes "digraph {") (edge_lines es ++ writeln (codes "}")) (omega arith))
      (read_edges-edge_lines es fits)
