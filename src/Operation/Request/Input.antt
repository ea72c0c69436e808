-- ===== src/Operation/Request/Input.antt =====
-- The input of RequestOperation, and the checks that need no query.
use providah_community.Prelude.{
  ◌==◌, Bool, not, ◌&&◌, ◌||◌, ◌++◌, String, len, Option, List, [], ◌∷◌, ltb, contains, trim_space,
}
use providah_community.Regex.{Regex, class, between, matches}
use providah_community.Provider.Patterns.{hex, dash}
use providah_community.Provider.Tags.{Tags}
use providah_community.Provider.Power.{valid_resize}
use providah_community.Operation.Tables.{invalid, conflict, Answer, ◌>>◌, refuse_if, is_set}

-- `RequestOperationRequest`.
pub record OperationInput : Type 0 where
  pub organization_id : String
  pub resource_id : String
  pub action : String
  pub expected_status : String
  pub reason : String
  pub idempotency_key : String
  pub maintenance_exception_reason : String
  pub confirmation : String
  pub deletion_digest : String
  pub expected_size : String
  pub target_size : String
  pub expected_tags : Option Tags
  pub target_tags : Option Tags

unfoldable pub trimmed : OperationInput → OperationInput
trimmed r = record r {
  reason = trim_space r.reason;
  maintenance_exception_reason = trim_space r.maintenance_exception_reason;
}

-- `[a-f0-9-]{16,80}`.
unfoldable pub request_key : Regex
unfolding between
request_key = between 16 64 (class (hex ++ dash))

abbrev pub requestable : List String
requestable = "start" ∷ "shutdown" ∷ "restart" ∷ "resize" ∷ "delete" ∷ "snapshot" ∷ "tags" ∷ []

-- The checks in their order; `configured` says whether the provider can be called.
unfoldable pub check_inputs : Bool → OperationInput → Answer (Unit {0})
unfolding request_key
check_inputs configured r = do
  refuse_if
      (r.action == "resize" && not (valid_resize r.expected_size r.target_size)
        || not (r.action == "resize") && (not (r.expected_size == "") || not (r.target_size == "")))
      (invalid "Choose different valid source and target server types.")
  refuse_if (ltb 200 (len r.confirmation) || ltb 64 (len r.deletion_digest))
      (invalid "Invalid deletion review.")
  refuse_if
      (not (r.maintenance_exception_reason == "")
        && (ltb (len r.maintenance_exception_reason) 10
            || ltb 500 (len r.maintenance_exception_reason)))
      (invalid "Explain the maintenance exception in 10–500 characters.")
  refuse_if (not configured)
      (conflict "Provider execution is not configured. Start the provider launcher.")
  refuse_if
      (not (contains requestable r.action)
        || ltb (len r.reason) 3
        || ltb 500 (len r.reason)
        || not (matches request_key r.idempotency_key))
      (invalid "Choose an eligible action, a reason, and a valid request key.")
  refuse_if (r.action == "tags" && (not (is_set r.expected_tags) || not (is_set r.target_tags)))
      (invalid "Refresh and review complete tag sets.")
  refuse_if (not (r.action == "tags") && (is_set r.expected_tags || is_set r.target_tags))
      (invalid "Unexpected tag inputs.")
