-- ===== src/Provider/Metrics.antt =====
-- sdk/provider/metrics.go: a bounded metrics interval, and the series observed in it.
-- A float64 is read as IEEE 754 reads its bits; an `int` or `int64` is an integer.
pub mod Interval
use providah_community.Prelude.{
  ℕ, ◌+◌, ◌==◌, Bool, true, not, ◌&&◌, ◌||◌, String, len, none, List, [], ◌∷◌, Error, fail_if,
  ◌>>>◌, all, if◌then◌else◌, ltb, eqb, contains, length, is_empty, ℤ, pos, ◌+ℤ◌, ◌-ℤ◌, ltb_ℤ, leb_ℤ,
  int64,
}
use providah_community.Regex.{matches, literal}
use providah_community.Provider.Patterns.{hex_id, positive_id}

pub record MetricsRequest : Type 0 where
  pub native_id : String
  pub start : ℤ
  pub end : ℤ

-- `finite negative significand exponent`.
pub data Float : Type 0 where
  nan : Float
  infinite : Bool → Float
  finite : Bool → ℕ → ℕ → Float

pub record MetricPoint : Type 0 where
  pub at : ℤ
  pub value : Float

pub record MetricSeries : Type 0 where
  pub id : String
  pub name : String
  pub unit : String
  pub aggregation : String
  pub period_seconds : ℤ
  pub points : List MetricPoint

pub record MetricsResult : Type 0 where
  pub series : List MetricSeries
  pub error : String

abbrev seconds : ℕ → ℤ
seconds n = pos n

-- `now` is `time.Now().Unix()`; sums and differences wrap around at 64 bits.
unfoldable pub validate_metrics_request : ℤ → String → MetricsRequest → Error
validate_metrics_request now cloud r =
    fail_if
      (not (matches (if cloud == "aws" then literal "i-" hex_id else positive_id) r.native_id)
        || ltb_ℤ r.start (int64 (now -ℤ seconds 90000))
        || ltb_ℤ (int64 (now +ℤ seconds 60)) r.end
        || leb_ℤ r.end r.start
        || ltb_ℤ (seconds 86400) (int64 (r.end -ℤ r.start)))
      "invalid metric target or interval"

-- `math.IsNaN(v) || math.IsInf(v, 0) || v < 0`; minus zero is not below zero.
unfoldable pub bad_value : Float → Bool
bad_value nan = true
bad_value (infinite negative) = true
bad_value (finite negative significand exponent) = negative && not (eqb significand 0)

-- The loop over the points, after a point at `last`.
unfoldable pub check_points : ℤ → List MetricPoint → Error
unfolding bad_value
check_points last [] = none
check_points last (p ∷ points) =
    fail_if (leb_ℤ p.at last || bad_value p.value) "invalid metric point"
    >>> check_points p.at points

-- The loop over the series, with the identities seen and the points so far.
unfoldable pub check_series : List MetricSeries → List String → ℕ → Error
unfolding check_points
check_series [] seen total = fail_if (ltb 12000 total) "too many metric points"
check_series (s ∷ series) seen total =
    fail_if
      (s.id == ""
        || s.name == ""
        || s.unit == ""
        || ltb 80 (len s.id)
        || ltb 120 (len s.name)
        || ltb 40 (len s.unit)
        || s.aggregation == ""
        || ltb 100 (len s.aggregation)
        || ltb_ℤ s.period_seconds (seconds 0)
        || ltb_ℤ (seconds 3600) s.period_seconds
        || ltb 2000 (length s.points)
        || contains seen s.id)
      "invalid metric series"
    >>> check_points (seconds 0) s.points
    >>> check_series series (s.id ∷ seen) (total + length s.points)

unfoldable pub validate_metrics_result : MetricsResult → Error
unfolding check_series
validate_metrics_result r =
    fail_if
      (not (r.error == "")
          && not (r.error == "unavailable")
          && not (r.error == "invalid_configuration")
        || ltb 16 (length r.series)
        || not (r.error == "") && not (is_empty r.series))
      "invalid metrics response"
    >>> check_series r.series [] 0

unfoldable pub within : MetricsResult → MetricsRequest → Bool
within r request =
    all
      (λ s.
        all (λ p. not (ltb_ℤ p.at request.start || ltb_ℤ request.end p.at)) (MetricSeries.points s))
      r.series
