-- ===== src/Parameters/Links.antt =====
-- `NetworkParams` of scoring/src/param.rs, and the shape of the links in `main` of scoring/src/main.rs.
use gossipsub_testground.Base.{
  ℕ, ◌*◌, ◌≤◌, ◌<◌, ◌≡◌, refl, ◌⊎◌, inl, inr, Outcome, ok, ◌>>=◌, if◌then◌else◌, ltb, Bool-cases,
  wrapping_mul, arith,
}
use gossipsub_testground.Base.Decimal.{parse_u64}
use gossipsub_testground.Parameters.{InstanceParams, ParamError, get_param}

-- Milliseconds, and MiB.
pub record NetworkParams : Type 0 where
  pub latency : ℕ
  pub bandwidth : ℕ

-- `sample a b` is what `rng.sample(Uniform::new(a, b))` returns.
module _ (sample : ℕ → ℕ → ℕ) where
  unfoldable pub new : InstanceParams → Outcome ParamError NetworkParams
  new instance_params = do
    latency ← get_param parse_u64 "latency" instance_params
    latency_max ← get_param parse_u64 "latency_max" instance_params
    let drawn = if ltb latency latency_max then sample latency latency_max else latency
    bandwidth ← get_param parse_u64 "bandwidth" instance_params
    ok (record { latency = drawn; bandwidth = bandwidth })

-- The `latency` in nanoseconds and the `bandwidth` in bytes of the `LinkShape`.
pub record LinkShape : Type 0 where
  pub latency : ℕ
  pub bandwidth : ℕ

unfoldable pub default_link_shape : NetworkParams → LinkShape
default_link_shape params = record {
  latency = wrapping_mul params.latency 1000000;
  bandwidth = wrapping_mul (wrapping_mul params.bandwidth 1024) 1024;
}

-- A sample of `Uniform::new(a, b)` is at least `a` and below `b`.
abbrev pub IsUniform : (ℕ → ℕ → ℕ) → Type 0
IsUniform sample = (a b : ℕ) → a < b → (a ≤ sample a b) × (sample a b < b)

drawn_between :
    (sample : ℕ → ℕ → ℕ) (a b : ℕ)
    → IsUniform sample
    → (a < b)
        × (a ≤ (if ltb a b then sample a b else a))
        × ((if ltb a b then sample a b else a) < b)
      ⊎ (b ≤ a) × ((if ltb a b then sample a b else a) ≡ a)
drawn_between sample a b uniform = elim (Bool-cases (ltb a b)) [
  | inl below ↦
      let less : a < b = ground arith in
      rw below (inl (less, (uniform a b less).0, (uniform a b less).1))
  | inr above ↦ rw above (inr (ground arith, refl))
]

-- If the three parameters can be read and a sample of a range that is not empty lies in it, the
-- latency of the links is drawn between `latency` and below `latency_max` if that is larger, and
-- else is `latency`.
pub new-latency :
    (sample : ℕ → ℕ → ℕ) (instance_params : InstanceParams) (latency latency_max bandwidth : ℕ)
    → IsUniform sample
    → get_param parse_u64 "latency" instance_params ≡ ok latency
    → get_param parse_u64 "latency_max" instance_params ≡ ok latency_max
    → get_param parse_u64 "bandwidth" instance_params ≡ ok bandwidth
    → (drawn : ℕ) × (new sample instance_params
        ≡ ok (record { latency = drawn; bandwidth = bandwidth }))
      × ((latency < latency_max) × (latency ≤ drawn) × (drawn < latency_max)
          ⊎ (latency_max ≤ latency) × (drawn ≡ latency))
unfolding new
new-latency sample ip a b bandwidth uniform a_read b_read bandwidth_read =
    (_, rw (a_read, b_read, bandwidth_read) refl, drawn_between sample a b uniform)

-- A latency of up to five hours and a bandwidth of up to a TiB per second do not wrap around.
pub default_link_shape-exact :
    (params : NetworkParams)
    → params.latency ≤ 18000000
    → params.bandwidth ≤ 1048576
    → default_link_shape params
      ≡ record { latency = params.latency * 1000000; bandwidth = params.bandwidth * 1048576 }
unfolding default_link_shape
default_link_shape-exact params small_latency small_bandwidth = cc (exact_latency, exact_bandwidth)
  where
    exact_latency : wrapping_mul params.latency 1000000 ≡ params.latency * 1000000
    exact_latency = omega arith

    exact_bandwidth :
        wrapping_mul (wrapping_mul params.bandwidth 1024) 1024 ≡ params.bandwidth * 1048576
    exact_bandwidth = omega arith
