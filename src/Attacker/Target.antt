-- ===== src/Attacker/Target.antt =====
-- `collect_beacon_node_info` of scoring/src/attacker.rs: the attackers agree on the node to censor.
use gossipsub_testground.Base.{
  ℕ, zero, suc, ◌+◌, ◌≤◌, ◌<◌, ◌≡◌, refl, ap, ◌⊎◌, inl, inr, List, [], ◌∷◌, ◌++◌, map, Outcome, ok,
  err, panic, ◌>>=◌, length, ltb, if◌then◌else◌, arith, All, Bool-cases, wrapping_sub, word,
}
use gossipsub_testground.Base.Maps.{insert}

-- A node and the validators of its `BeaconNodeInfo`.
abbrev pub Info : Type 0
Info = ℕ × List ℕ

-- What the stream yields: a value that is an info, one that is not, or an error.
pub data Entry : Type 0 where
  info : Info → Entry
  not_info : Entry
  stream_error : Entry

pub data CollectError : Type 0 where
  bad_value failed : CollectError

pub record Collected : Type 0 where
  pub target_node_id : ℕ
  pub num_vals : ℕ
  pub beacon_nodes : List Info

unfoldable pub collect_info : Info → Collected → Collected
collect_info (node_id, validators) s =
    let nodes = insert node_id validators s.beacon_nodes in
    if ltb s.num_vals (length validators)
    then record { target_node_id = node_id; num_vals = length validators; beacon_nodes = nodes }
    else record s { beacon_nodes = nodes }

-- The rounds of the loop; a stream that ends before them is `unreachable!()`.
unfoldable pub collect_infos : ℕ → List Entry → Collected → Outcome CollectError Collected
unfolding collect_info
collect_infos zero stream s = ok s
collect_infos (suc n) [] s = panic
collect_infos (suc n) (info i ∷ r) s = collect_infos n r (collect_info i s)
collect_infos (suc n) (not_info ∷ r) s = err bad_value
collect_infos (suc n) (stream_error ∷ r) s = err failed

unfoldable pub collect_beacon_node_info :
    (instances group_instances : ℕ) → List Entry → Outcome CollectError (ℕ × List Info)
collect_beacon_node_info instances group_instances stream = do
  s ←
      collect_infos (wrapping_sub instances group_instances) stream
        (record { target_node_id = 0; num_vals = 0; beacon_nodes = [] })
  ok (s.target_node_id, s.beacon_nodes)

-- The first of the infos with the most validators, more than `least`.
pub record IsFirstLargest (least target most : ℕ) (infos : List Info) : Type 0 where
  pub before : List Info
  pub validators : List ℕ
  pub after : List Info
  pub split : infos ≡ before ++ (target, validators) ∷ after
  pub has_most : length validators ≡ most
  pub fewer_before : All (λ i. length i.1 < most) before
  pub above : least < most

abbrev Collects : Collected → List Info → Collected → Type 0
Collects s infos s' =
    All (λ i. length i.1 ≤ s'.num_vals) infos
    × (s.num_vals ≤ s'.num_vals)
    × (((s'.target_node_id ≡ s.target_node_id) × (s'.num_vals ≡ s.num_vals))
        ⊎ IsFirstLargest s.num_vals s'.target_node_id s'.num_vals infos)

collect_infos_lem :
    (infos : List Info) (s : Collected)
    → (s' : Collected) × (collect_infos (length infos) (map info infos) s ≡ ok s')
      × Collects s infos s'
unfolding collect_infos collect_info
collect_infos_lem [] s = (s, refl, (tt, omega arith, inl (refl, refl)))
collect_infos_lem ((id, vals) ∷ infos) s = elim (Bool-cases (ltb s.num_vals (length vals))) [
  | inl more ↦
      let next : Collected = record {
        target_node_id = id;
        num_vals = length vals;
        beacon_nodes = insert id vals s.beacon_nodes;
      } in
      let (s', e, (largest, grows, which)) = collect_infos_lem infos next in
      (
        s',
        rw more e,
        (
          (grows, largest),
          ground (arith, more, grows),
          inr (elim which [
            | inl (same, count) ↦ record {
              before = [];
              validators = vals;
              after = infos;
              split = rw same refl;
              has_most = rw count refl;
              fewer_before = tt;
              above = ground (arith, more, count);
            }
            | inr f ↦ record {
              before = (id, vals) ∷ f.before;
              validators = f.validators;
              after = f.after;
              split = ap (λ l. (id, vals) ∷ l) f.split;
              has_most = f.has_most;
              fewer_before = (f.above, f.fewer_before);
              above = ground (arith, more, f.above);
            }
          ]),
        ),
      )
  | inr fewer ↦
      let next : Collected = record s { beacon_nodes = insert id vals s.beacon_nodes } in
      let (s', e, (largest, grows, which)) = collect_infos_lem infos next in
      (
        s',
        rw fewer e,
        (
          (ground (arith, fewer, grows), largest),
          grows,
          elim which [
            | inl same ↦ inl same
            | inr f ↦ inr (record {
              before = (id, vals) ∷ f.before;
              validators = f.validators;
              after = f.after;
              split = ap (λ l. (id, vals) ∷ l) f.split;
              has_most = f.has_most;
              fewer_before = (ground (arith, fewer, f.above), f.fewer_before);
              above = f.above;
            })
          ],
        ),
      )
]

-- If the stream yields the infos of all beacon nodes, whose number is that of the instances less
-- those of the own group, then the function returns, and its target is the first of the nodes with
-- the most validators; it is node 0 if no node has a validator.
pub collect_beacon_node_info_target :
    (group_instances : ℕ) (infos : List Info)
    → group_instances + length infos < word
    → (target : ℕ) × (nodes : List Info) × (collect_beacon_node_info
          (group_instances + length infos)
          group_instances
          (map info infos)
        ≡ ok (target, nodes))
      × (((target ≡ 0) × All (λ i. length i.1 ≤ 0) infos)
          ⊎ ((most : ℕ) × IsFirstLargest 0 target most infos × All (λ i. length i.1 ≤ most) infos))
unfolding collect_beacon_node_info
collect_beacon_node_info_target group_instances infos fits =
    let (s', e, (largest, _, which)) =
      collect_infos_lem infos (record { target_node_id = 0; num_vals = 0; beacon_nodes = [] }) in
    let rounds : wrapping_sub (group_instances + length infos) group_instances ≡ length infos =
      omega (arith, fits) in
    (
      s'.target_node_id,
      s'.beacon_nodes,
      rw (rounds, e) refl,
      elim which [
        | inl (same, none_seen) ↦ inl (same, rw none_seen at largest)
        | inr f ↦ inr (s'.num_vals, f, largest)
      ],
    )
