-- ===== src/Parameters.antt =====
-- The parameters of a test instance: `get_param` of scoring/src/param.rs, and what reads them.
pub mod Topology
pub mod Links
pub mod Scores
use gossipsub_testground.Base.{
  ℕ, List, Option, none, some, Bool, true, false, String, Outcome, ok, err, ok_or, ◌>>=◌,
  if◌then◌else◌,
}
use gossipsub_testground.Base.Decimal.{codes, equal}

-- `HashMap<String, String>`, as far as it is read: a value is its code points.
abbrev pub InstanceParams : Type 0
InstanceParams = String → Option (List ℕ)

-- The two messages of `get_param`.
pub data ParamError : Type 0 where
  not_specified : (key : String) → ParamError
  not_parsed : (key : String) → ParamError

module _ {A : Type 0} (parse : List ℕ → Option A) where
  unfoldable pub get_param : String → InstanceParams → Outcome ParamError A
  get_param k instance_params = do
    text ← ok_or (instance_params k) (not_specified k)
    ok_or (parse text) (not_parsed k)

-- `FromStr` of `bool`.
abbrev pub parse_bool : List ℕ → Option Bool
parse_bool text =
    if equal text (codes "true")
    then some true
    else if equal text (codes "false")
    then some false
    else none
