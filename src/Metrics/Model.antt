-- ===== src/Metrics/Model.antt =====
-- What the plans use of the crate `prometheus_client`, the OpenMetrics data model, and of
-- `WriteQuery` of the crate `testground`.
use Prim.Native.String.{String}
use Prim.Native.String
use gossipsub_testground.Base.{ℕ, List, Option}

-- `format!("{a}_{b}")`
abbrev pub with_underscore : String → String → String
with_underscore a b = String.◌++◌ a (String.◌++◌ "_" b)

pub data Never : Type 0 where

-- A field of a query: `u64`, `i64`, `f64` or text.
pub data Field (I F : Type 0) : Type 0 where
  unsigned : ℕ → Field I F
  signed : I → Field I F
  double : F → Field I F
  text : String → Field I F

-- The numbers that are only passed on have no structure here, and neither has a query.
pub record Influx : Type 1 where
  pub Signed : Type 0
  pub Double : Type 0
  pub Time : Type 0
  pub Query : Type 0
  -- A literal of the source without a type is an `i32`, which is stored as a signed integer.
  pub literal : ℕ → Signed
  pub new_query : Time → String → Query
  pub add_tag : String → String → Query → Query
  pub add_field : String → Field Signed Double → Query → Query

pub record Label : Type 0 where
  pub name : String
  pub value : String

module _ (db : Influx) where
  pub data Total : Type 0 where
    int_value : ℕ → Total
    double_value : db.Double → Total

  pub data GaugeValue : Type 0 where
    gauge_int : db.Signed → GaugeValue
    gauge_double : db.Double → GaugeValue

  pub record Bucket : Type 0 where
    pub count : ℕ
    pub upper_bound : db.Double

  -- `metric_point::Value`; `other_value` stands for the kinds that the plans do not read.
  pub data Value : Type 0 where
    counter_value : Option Total → Value
    gauge_value : Option GaugeValue → Value
    histogram_value : List Bucket → Value
    other_value : Value

  pub record Metric : Type 0 where
    pub labels : List Label
    pub metric_points : List (Option Value)

  pub record MetricFamily : Type 0 where
    pub name : String
    pub metrics : List Metric
