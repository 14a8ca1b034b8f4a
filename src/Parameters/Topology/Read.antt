-- ===== src/Parameters/Topology/Read.antt =====
-- What the two functions that read the parameters of the topology return.
use native.Mathlib.Nat.{mul-le-mul_left}
use gossipsub_testground.Base.{
  ℕ, ◌+◌, ◌-◌, ◌*◌, ◌/◌, ◌≤◌, ◌<◌, ◌≡◌, ◌↔◌, refl, ap, sym, ◌∙◌, subst, Option, none, some,
  Option-cases, inl, inr, String, Outcome, panic, ok, err, map_err, ◌>>=◌, >>=-eq-ok, word,
  wrapping_mul, wrapping_sub, arith,
}
use gossipsub_testground.Base.Decimal.{parse_u64}
use gossipsub_testground.GenTopology.Params.{Params, new-eq-ok_iff}
use gossipsub_testground.GenTopology.Params
use gossipsub_testground.Parameters.{InstanceParams, get_param}
use gossipsub_testground.Parameters.Topology.{
  min, number, bad_param, bad_topology, parse_topology_params, SimulationError, read_with,
  parse_params, refused,
}

-- A result without its error.
abbrev pub result_of {ℓ} : {E : Type 0} {A : Type ℓ} → Outcome E A → Option A
result_of panic = none
result_of (err reason) = none
result_of (ok value) = some value

module _ {E F : Type 0} {A B : Type 0} where
  pub agree_bind :
      (a : Outcome E A) (b : Outcome F A) (f : A → Outcome E B) (g : A → Outcome F B)
      → result_of a ≡ result_of b
      → ((x : A) → result_of (f x) ≡ result_of (g x))
      → result_of (a >>= f) ≡ result_of (b >>= g)
  agree_bind (ok x) (ok y) f g same next =
      let equal : x ≡ y = cc in subst (λ z. result_of (f x) ≡ result_of (g z)) equal (next x)
  agree_bind (ok x) (err s) f g same next = absurd cc
  agree_bind (ok x) panic f g same next = absurd cc
  agree_bind (err r) (ok y) f g same next = absurd cc
  agree_bind panic (ok y) f g same next = absurd cc
  agree_bind (err r) (err s) f g same next = refl
  agree_bind (err r) panic f g same next = refl
  agree_bind panic (err s) f g same next = refl
  agree_bind panic panic f g same next = refl

agree_number :
    (k : String) (instance_params : InstanceParams) (bad : SimulationError)
    → result_of (read_with bad k instance_params) ≡ result_of (number k instance_params)
unfolding get_param
agree_number k instance_params bad = elim (Option-cases (instance_params k)) [
  | inl absent ↦ rw absent refl
  | inr (text, present) ↦ elim (Option-cases (parse_u64 text)) [
    | inl refuses ↦ rw (present, refuses) refl
    | inr (n, parses) ↦ rw (present, parses) refl
  ]
]

agree_made :
    (run : ℕ) (params : Outcome Params.ParamsError Params)
    → result_of {A = ℕ × Params} (do p ← map_err refused params; ok (run, p))
      ≡ result_of {A = ℕ × Params} (do p ← map_err bad_topology params; ok (run, p))
agree_made run panic = refl
agree_made run (err reason) = refl
agree_made run (ok p) = refl

-- `parse_params` of eth_consensus and `parse_topology_params` of scoring return the same for the
-- same parameters, up to the messages of their errors.
pub parse_params-parse_topology_params :
    (total_nodes : ℕ) (instance_params : InstanceParams)
    → result_of (parse_params total_nodes instance_params)
      ≡ result_of (parse_topology_params total_nodes instance_params)
unfolding parse_params parse_topology_params
parse_params-parse_topology_params total_nodes ip =
    agree_bind _ _ _ _ (agree_number _ ip _) (λ seed.
      agree_bind _ _ _ _ (agree_number _ ip _) (λ percentage.
        agree_bind _ _ _ _ (agree_number _ ip _) (λ total_validators.
          agree_bind _ _ _ _ (agree_number _ ip _) (λ min_peers.
            agree_bind _ _ _ _ (agree_number _ ip _)
              (λ max_peers. agree_bind _ _ _ _ (agree_number _ ip _) (λ run. agree_made run _))))))

-- The nodes without validators, and the rest.
abbrev pub without_vals : (total_nodes percentage : ℕ) → ℕ
without_vals total_nodes percentage = total_nodes * min percentage 100 / 100

product_le : (total_nodes percentage : ℕ) → total_nodes * min percentage 100 ≤ total_nodes * 100
product_le total_nodes percentage = mul-le-mul_left total_nodes (ground arith)

nodes_split :
    (total_nodes percentage : ℕ)
    → total_nodes * 100 < word
    → (wrapping_mul total_nodes (min percentage 100) / 100 ≡ without_vals total_nodes percentage)
      × (without_vals total_nodes percentage ≤ total_nodes)
nodes_split total_nodes percentage fits = (
  omega (arith, product_le total_nodes percentage),
  omega (arith, product_le total_nodes percentage),
)

map_err-eq-ok :
    {E F A : Type 0} (f : E → F) (o : Outcome E A) {a : A} → map_err f o ≡ ok a → o ≡ ok a
map_err-eq-ok f panic h = absurd cc
map_err-eq-ok f (err reason) h = absurd cc
map_err-eq-ok f (ok value) h = cc

returned-inj :
    {E A B : Type 0} (a a' : A) (b b' : B)
    → ◌≡◌ {A = Outcome E (A × B)} (ok (a, b)) (ok (a', b'))
    → (a ≡ a') × (b ≡ b')
returned-inj a a' b b' h = (cc, cc)

-- The value that a parameter has.
abbrev pub Reads : InstanceParams → String → ℕ → Type 0
Reads instance_params k n = get_param parse_u64 k instance_params ≡ ok n

-- What the parameters must be for the result `(run, p)`.
pub record IsRead (total_nodes : ℕ) (instance_params : InstanceParams) (run : ℕ) (p : Params)
    : Type 0 where
  pub percentage : ℕ
  pub seed_read : Reads instance_params "seed" p.seed
  pub percentage_read : Reads instance_params "no_val_percentage" percentage
  pub validators_read : Reads instance_params "total_validators" p.total_validators
  pub min_read : Reads instance_params "min_peers_per_node" p.connections_range.first
  pub max_read : Reads instance_params "max_peers_per_node_inclusive" p.connections_range.last
  pub run_read : Reads instance_params "run" run
  pub nodes : p.total_nodes ≡ total_nodes
  pub nodes_with_vals : p.total_nodes_with_vals ≡ total_nodes - without_vals total_nodes percentage
  pub valid : Params.IsValid p

abbrev params_with : (seed v with_vals lo hi total_nodes : ℕ) → Params
params_with seed v with_vals lo hi total_nodes = record {
  seed = seed;
  total_validators = v;
  total_nodes_with_vals = with_vals;
  total_nodes = total_nodes;
  connections_range = record { first = lo; last = hi };
}

made_iff :
    (seed total_nodes percentage v lo hi : ℕ) (p : Params)
    → total_nodes * 100 < word
    → (Params.new seed v
          (wrapping_sub total_nodes (wrapping_mul total_nodes (min percentage 100) / 100))
          (wrapping_mul total_nodes (min percentage 100) / 100)
          lo
          hi
        ≡ ok p)
      ↔ ((0 < total_nodes)
          × (0 < v)
          × (lo ≤ hi)
          × (p
              ≡ params_with seed v
                  (total_nodes - without_vals total_nodes percentage)
                  lo
                  hi
                  total_nodes))
made_iff seed total_nodes percentage v lo hi p fits =
    let (product, inside) = nodes_split total_nodes percentage fits in
    let b = without_vals total_nodes percentage in
    let a_exact : wrapping_sub total_nodes b ≡ total_nodes - b = omega arith in
    let sum : (total_nodes - b) + b ≡ total_nodes = omega arith in
    let same_params = ap (params_with seed v (total_nodes - b) lo hi) sum in
    let refusal = new-eq-ok_iff seed v (total_nodes - b) b lo hi p (omega arith) (omega arith) in
    rw (product, a_exact)
      (
        λ h.
            let (fits_sum, some_nodes, some_v, range, e) = refusal.0 h in
            (omega arith, some_v, range, e ∙ same_params),
        λ (some_nodes, some_v, range, e).
            refusal.1 (omega arith, omega arith, some_v, range, e ∙ sym same_params),
      )

-- For node counts whose product with 100 fits in 64 bits, `parse_topology_params` returns
-- parameters exactly if all six instance parameters can be read and the parameters hold their
-- values, the split of the nodes by the percentage, and are valid.
pub parse_topology_params-eq-ok_iff :
    (total_nodes : ℕ) (instance_params : InstanceParams) (run : ℕ) (p : Params)
    → total_nodes * 100 < word
    → (parse_topology_params total_nodes instance_params ≡ ok (run, p))
      ↔ IsRead total_nodes instance_params run p
unfolding parse_topology_params
parse_topology_params-eq-ok_iff total_nodes ip run p fits = (
  λ h.
      let (seed, seed_ok, h1) = >>=-eq-ok _ _ h in
      let (percentage, percentage_ok, h2) = >>=-eq-ok _ _ h1 in
      let (v, v_ok, h3) = >>=-eq-ok _ _ h2 in
      let (lo, lo_ok, h4) = >>=-eq-ok _ _ h3 in
      let (hi, hi_ok, h5) = >>=-eq-ok _ _ h4 in
      let (time, time_ok, h6) = >>=-eq-ok _ _ h5 in
      let (q, made, returned) = >>=-eq-ok _ _ h6 in
      let (some_nodes, some_v, range, e) =
        (made_iff seed total_nodes percentage v lo hi q fits).0
          (map_err-eq-ok bad_topology _ made) in
      let (same_run, same_params) = returned-inj time run q p returned in
      let same : params_with seed v (total_nodes - without_vals total_nodes percentage) lo hi
            total_nodes
          ≡ p =
        sym e ∙ same_params in
      subst (λ t. IsRead total_nodes ip t p) same_run
        (subst (λ made_p. IsRead total_nodes ip time made_p) same
          (record {
            percentage = percentage;
            seed_read = map_err-eq-ok bad_param _ seed_ok;
            percentage_read = map_err-eq-ok bad_param _ percentage_ok;
            validators_read = map_err-eq-ok bad_param _ v_ok;
            min_read = map_err-eq-ok bad_param _ lo_ok;
            max_read = map_err-eq-ok bad_param _ hi_ok;
            run_read = map_err-eq-ok bad_param _ time_ok;
            nodes = refl;
            nodes_with_vals = refl;
            valid = record {
              some_nodes = some_nodes;
              some_validators = some_v;
              vals_fit = omega arith;
              range_fits = range;
            };
          })),
  λ h.
      let e : p
          ≡ params_with p.seed p.total_validators
              (total_nodes - without_vals total_nodes h.percentage) p.connections_range.first
              p.connections_range.last total_nodes =
        ap
          (λ t.
            params_with p.seed p.total_validators p.total_nodes_with_vals p.connections_range.first
              p.connections_range.last t)
          h.nodes
        ∙ ap
            (λ a.
              params_with p.seed p.total_validators a p.connections_range.first
                p.connections_range.last total_nodes)
            h.nodes_with_vals in
      let made =
        (made_iff p.seed total_nodes h.percentage p.total_validators p.connections_range.first
            p.connections_range.last p fits).1
          (
            omega (arith, h.nodes, h.valid.some_nodes),
            h.valid.some_validators,
            h.valid.range_fits,
            e,
          ) in
      rw
        (
          h.seed_read, h.percentage_read, h.validators_read, h.min_read, h.max_read, h.run_read,
          made,
        )
        refl,
)
