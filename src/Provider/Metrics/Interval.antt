-- ===== src/Provider/Metrics/Interval.antt =====
-- The interval of a validated metrics request.
use providah_community.Prelude.{
  ◌≡◌, arith, String, none, ℤ, pos, ◌+ℤ◌, ◌-ℤ◌, ◌≤ℤ◌, IsInt64, int64_lem, +ℤ_parts, -ℤ_parts,
  fail_if-none,
}
use providah_community.Provider.Metrics.{MetricsRequest, validate_metrics_request}

-- With a clock in the years that a Unix time can show, an accepted interval is not empty, is at
-- most a day long, starts at most 25 hours ago and ends at most a minute ahead, as integers: the
-- 64-bit differences of the check do not wrap around.
pub metrics_interval :
    (now : ℤ) (cloud : String) (r : MetricsRequest)
    → IsInt64 (now -ℤ pos 90000)
    → IsInt64 (now +ℤ pos 60)
    → validate_metrics_request now cloud r ≡ none
    → (now -ℤ pos 90000 ≤ℤ r.start)
      × (r.end ≤ℤ now +ℤ pos 60)
      × (r.start +ℤ pos 1 ≤ℤ r.end)
      × (r.end ≤ℤ r.start +ℤ pos 86400)
unfolding validate_metrics_request
metrics_interval now cloud r low high h =
    let refused = fail_if-none _ _ h in
    ground (
      arith,
      refused,
      int64_lem (now -ℤ pos 90000) low,
      int64_lem (now +ℤ pos 60) high,
      int64_lem (r.end -ℤ r.start),
      -ℤ_parts r.end r.start,
      -ℤ_parts now (pos 90000),
      +ℤ_parts now (pos 60),
      +ℤ_parts r.start (pos 1),
      +ℤ_parts r.start (pos 86400),
    )
