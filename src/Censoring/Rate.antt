-- ===== src/Censoring/Rate.antt =====
-- The interval at which a publisher of censoring/src/honest.rs publishes, and the number of messages that
-- it expects to publish.
use native.Mathlib.Nat.{
  div-mul-le_self, mul-le-mul_left, le-div_iff_mul-le, div-eq_of_lt, mul_assoc, mul_comm,
}
use gossipsub_testground.Base.{
  ℕ, ◌*◌, ◌/◌, ◌≤◌, ◌<◌, ◌≡◌, ap, sym, ◌∙◌, ◌≢◌, ◌↔◌, ◌⊎◌, inl, inr, Bool-cases, ==_iff, ltb,
  ltb→lt, Outcome, panic, ok, ◌>>=◌, if◌then◌else◌, ◌==◌, arith,
}
use gossipsub_testground.Metrics.Model.{Never}

-- A division by zero panics.
abbrev divide : ℕ → ℕ → Outcome Never ℕ
divide a b = if b == 0 then panic else ok (a / b)

-- In milliseconds.
unfoldable pub publish_interval : (message_rate : ℕ) → Outcome Never ℕ
publish_interval message_rate = divide 1000 message_rate

-- `run` is in seconds; `as_millis` does not wrap around.
unfoldable pub total_expected_messages : (message_rate run : ℕ) → Outcome Never ℕ
unfolding publish_interval
total_expected_messages message_rate run = do
  interval ← publish_interval message_rate
  divide (run * 1000) interval

divide-ok : (a b : ℕ) → 1 ≤ b → divide a b ≡ ok (a / b)
divide-ok a b positive = ground arith

-- For a rate of 1 to 1000 messages per second nothing panics; the interval is positive, and the expected
-- messages are at least the rate times the run time.
pub total_expected_messages_bounds :
    (message_rate run : ℕ)
    → 1 ≤ message_rate
    → message_rate ≤ 1000
    → (interval expected : ℕ) × (publish_interval message_rate ≡ ok interval)
      × (total_expected_messages message_rate run ≡ ok expected)
      × (1 ≤ interval)
      × (interval * message_rate ≤ 1000)
      × (run * message_rate ≤ expected)
unfolding total_expected_messages publish_interval
total_expected_messages_bounds message_rate run positive small =
    let interval = 1000 / message_rate in
    let at_least : 1 ≤ interval = (le-div_iff_mul-le positive).1 (omega arith) in
    let at_most : interval * message_rate ≤ 1000 = div-mul-le_self 1000 message_rate in
    let interval_ok = divide-ok 1000 message_rate positive in
    let product : run * message_rate * interval ≡ run * (interval * message_rate) =
      mul_assoc run message_rate interval ∙ ap (λ x. run * x) (mul_comm message_rate interval) in
    (
      interval,
      run * 1000 / interval,
      interval_ok,
      rw interval_ok (divide-ok (run * 1000) interval at_least),
      at_least,
      at_most,
      (le-div_iff_mul-le at_least).1 (omega (arith, product, mul-le-mul_left run at_most)),
    )

-- The computation of the expected messages panics exactly for a message rate of zero or above a
-- thousand.
pub total_expected_messages-panic_iff :
    (message_rate run : ℕ)
    → (total_expected_messages message_rate run ≡ panic)
      ↔ ((message_rate ≡ 0) ⊎ (1000 < message_rate))
unfolding total_expected_messages publish_interval
total_expected_messages-panic_iff message_rate run = (
  λ panicked. elim (Bool-cases (message_rate == 0)) [
    | inl no_rate ↦ inl ((==_iff message_rate 0).0 no_rate)
    | inr some_rate ↦ elim (Bool-cases (ltb 1000 message_rate)) [
      | inl fast ↦ inr (ltb→lt 1000 message_rate fast)
      | inr slow ↦
          let (_, expected, _, returned, _, _, _) =
            total_expected_messages_bounds message_rate run (ground arith) (ground arith) in
          absurd (never expected (sym panicked ∙ returned))
    ]
  ],
  λ rate. elim rate [
    | inl zero_rate ↦ rw zero_rate (λ i. panic)
    | inr fast ↦
        let interval_ok = divide-ok 1000 message_rate (omega arith) in
        rw (interval_ok, div-eq_of_lt fast) (λ i. panic)
  ],
)
  where
    never : (n : ℕ) → ◌≢◌ {A = Outcome Never ℕ} panic (ok n)
    never n h = absurd cc
