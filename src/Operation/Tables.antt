-- ===== src/Operation/Tables.antt =====
-- The rows that the handlers read and write, and the errors that they answer with.
-- Instants are seconds; a null instant is read as the zero time, which lies before every instant.
use providah_community.Prelude.{
  ℕ, Bool, true, false, String, Option, none, some, List, ◌≡◌, refl, eqb,
}
use providah_community.Provider.Tags.{Tags}
use providah_community.Provider.Create.{ServerCreate, SshKeyCreate}

-- The values of the column `status`.
pub data Status : Type 0 where
  awaiting_approval queued dispatching observing succeeded failed uncertain : Status
  rejected canceled expired resolved : Status

abbrev status_code : Status → ℕ
status_code awaiting_approval = 0
status_code queued = 1
status_code dispatching = 2
status_code observing = 3
status_code succeeded = 4
status_code failed = 5
status_code uncertain = 6
status_code rejected = 7
status_code canceled = 8
status_code expired = 9
status_code resolved = 10

abbrev pub is_status : Status → Status → Bool
is_status s t = eqb (status_code s) (status_code t)

-- The column `creation`, as `json.Unmarshal` reads it.
pub data Creation : Type 0 where
  no_creation malformed : Creation
  server : ServerCreate → Creation
  key : SshKeyCreate → Creation

pub record Operation : Type 0 where
  pub id : String
  pub org_id : String
  pub resource_id : Option String
  pub connection_id : String
  pub connection_revision : ℕ
  pub provider : String
  pub native_id : String
  pub region : String
  pub resource_name : String
  pub action : String
  pub expected_status : String
  pub reason : String
  pub requester_id : String
  pub requester_oidc : Option String
  pub approver_id : Option String
  pub approver_oidc : Option String
  pub policy_version : String
  pub status : Status
  pub idempotency_key : String
  pub approval_expires_at : Option ℕ
  pub expires_at : ℕ
  pub lease_until : Option ℕ
  pub next_attempt_at : ℕ
  pub observation_deadline : Option ℕ
  pub provider_action_id : String
  pub observed_status : String
  pub detail : String
  pub schedule_id : Option String
  pub schedule_revision : ℕ
  pub automation_identity_id : String
  pub maintenance_revision : ℕ
  pub maintenance_exception_reason : String
  pub maintenance_expires_at : Option ℕ
  pub module_revision : ℕ
  pub runtime_id : String
  pub deletion_impact : String
  pub creation : Creation
  pub resource_kind : String
  pub expected_size : String
  pub target_size : String
  pub template_id : Option String
  pub provider_identity : String
  pub expected_tags : Option Tags
  pub target_tags : Option Tags

pub record Connection : Type 0 where
  pub id : String
  pub org_id : String
  pub provider : String
  pub revision : ℕ
  pub enabled : Bool
  pub deleted : Bool
  pub ciphertext : String

pub record ResourceRow : Type 0 where
  pub connection_id : String
  pub native_id : String
  pub name : String
  pub kind : String
  pub region : String
  pub status : String
  pub observed_at : ℕ
  pub size : String
  pub provider_identity : String
  pub tag_metadata : Option Tags

-- `connect.Error` by its code; `internal` is any other error, as of a failed query.
pub data Fault : Type 0 where
  denied internal unauthenticated : Fault
  invalid conflict : String → Fault

-- What a handler answers: an error rolls its transaction back.
pub data Answer (A : Type 0) : Type 0 where
  done : A → Answer A
  fault : Fault → Answer A

infixl 5 ◌>>=◌ ◌>>◌
abbrev pub ◌>>=◌ : {A B : Type 0} → Answer A → (A → Answer B) → Answer B
done a >>= f = f a
fault e >>= f = fault e

abbrev pub ◌>>◌ : {B : Type 0} → Answer (Unit {0}) → Answer B → Answer B
m >> rest = m >>= λ _. rest

-- `if test { return nil, fault }`.
abbrev pub refuse_if : Bool → Fault → Answer (Unit {0})
refuse_if true e = fault e
refuse_if false e = done tt

-- A read whose error the handler passes on.
abbrev pub found : {A : Type 0} → Option A → Fault → Answer A
found none e = fault e
found (some a) e = done a

pub done_same : {A : Type 0} (a b : A) → Answer.done a ≡ done b → a ≡ b
done_same a b h = cc

pub >>=-eq-done :
    {A B : Type 0} (m : Answer A) (f : A → Answer B) {b : B}
    → (m >>= f) ≡ done b
    → (a : A) × (m ≡ done a) × (f a ≡ done b)
>>=-eq-done (done a) f h = (a, refl, h)
>>=-eq-done (fault e) f h = cc

pub >>-eq-done :
    {B : Type 0} (test : Bool) (e : Fault) (rest : Answer B) {b : B}
    → (refuse_if test e >> rest) ≡ done b
    → (test ≡ false) × (rest ≡ done b)
>>-eq-done true e rest h = cc
>>-eq-done false e rest h = (refl, h)

-- The queries that mark a resource deleted.
pub data Mark : Type 0 where
  placement_group project image database_snapshot snapshot ssh_key network volume server_row : Mark

-- What a transaction writes besides the operation, in order.
pub data Effect : Type 0 where
  audited : String → String → String → String → Effect
  tags_observed : Option Tags → Effect
  marked_deleted : Mark → Effect
  upserted : String → String → String → Effect
  refreshed : String → Effect

-- The new row of the operation and the other writes.
pub record Commit : Type 0 where
  pub row : Operation
  pub effects : List Effect

-- The time of a nullable column.
abbrev pub time_of : Option ℕ → ℕ
time_of none = 0
time_of (some t) = t

abbrev pub is_set {ℓ} : {A : Type ℓ} → Option A → Bool
is_set none = false
is_set (some a) = true

-- The text of a nullable column.
abbrev pub text_of : Option String → String
text_of none = ""
text_of (some s) = s
