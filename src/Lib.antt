-- ===== src/Lib.antt =====
-- Verification of the Providah community server: the contract between the core and the provider
-- workers, the life of operations on cloud resources, access within an organization, schedules and
-- maintenance windows, and the policies of an organization.
--
-- The program. The core (internal/core) keeps organizations, connections, inventories and
-- operations in PostgreSQL (internal/database, generated by sqlc) and serves an API. An operation
-- on a resource is requested, reviewed by a second person where the policy asks for it, claimed by
-- the coordinator under a lease, checked again, sent to a provider worker, and observed until its
-- outcome is known. Workers (internal/providers) run in containers that the launcher starts from
-- runtime images; they exchange the messages of sdk/provider with the core. A runtime image is
-- admitted when a signed release approves it.
--
-- Files.
--   Prelude and its children: library names passed on, Boolean tests on numbers and texts, lists,
--     Go's `error` results (Option String), integers with the wrap-around of int64.
--   Regex: regular expressions with a matcher by derivatives, for the patterns that the program
--     compiles. The patterns themselves stand in Provider/Patterns and beside their use.
--   Provider/Status: sdk/provider/power.go, the kinds, and which action a status allows or shows
--     as reached. Provider/Power: the validation of PowerRequest and PowerResult.
--   Provider/Create: sdk/provider/create.go and key_create.go. Provider/Tags: tags.go and
--     tag_change.go. Provider/Metrics: metrics.go. Provider/Discovery: discovery.go.
--   Provider/Runtime: runtime.go and community.go, the capabilities of a runtime and their
--     validation. Provider/Trust: trust.go, the releases that approve runtime
--     images, with the signing of one in Provider/Trust/Signing.
--   Operation/Tables: the rows (internal/database/models.go), the errors of handlers, and what a
--     transaction writes. Operation/World: what a transaction reads, and the decisions of
--     internal/core/modules.go, resource_policy.go, ownership.go, maintenance.go
--     (hasPermission) and identity_policy.go (identityAllowed) that operations use.
--   Operation/Review, Operation/Worker, Operation/Dispatch, Operation/Settle, Operation/Outcome:
--     the handlers and the coordinator of internal/core/operations.go, with bindCreatedResource
--     of creation.go and the statements ReviewOperation, ClaimOperation, RecheckOperation,
--     SaveOperationOutcome and BindCreatedServer of internal/database/operations.sql.go as functions
--     on a row.
--   Operation/Request with Operation/Request/Input and Busy: requestOperation, the row that
--     CreateOperation inserts, and the unique indexes of the table. Operation/Deletion: deletion.go.
--   Operation/Tick: the sweep of overdue operations in operationTick, with the conditions and the
--     limits of ExpiredPendingOperations and ExpiredDispatches.
--   Operation/Life: these transactions as steps on a row, and sequences of steps.
--   Access: the rows of an organization and the view effective_memberships. Access/Roles,
--     Access/Members and Access/Invitations: SaveRole, UpdateMember and the handlers of invitations
--     in internal/core/access.go; Access/Teams: teams.go; the statements of access.sql.go and
--     teams.sql.go as functions on rows. Access/Changes: these handlers as steps.
--   Schedule, Schedule/Wall and Schedule/Next: the specifications, the local times and the next
--     occurrence of internal/core/schedule_time.go. Maintenance, Maintenance/Window and
--     Maintenance/Policies: internal/core/maintenance.go, without the list of policies.
--   Modules: SetProviderModule and SetProviderRuntime of internal/core/modules.go, with the statements
--     of internal/database/modules.sql.go as functions on rows. Approvals: SaveResourcePolicy of
--     internal/core/resource_policy.go.
--   The children of these modules hold the proofs and are named for what they are about. Tests:
--     concrete inputs, and the theorems used on them.
--
-- How the model reads the code. A handler is a function from the world of its transaction, its
-- actor and the locked rows to an Answer: a Commit with the new row and the other writes in order,
-- or a Fault with the error, which rolls the transaction back. A world is a record with the clock,
-- the answers of the queries, the configuration and the credentials; each step of a sequence has
-- its own, so anything else of the database may change between two steps. A run of the coordinator
-- is two transactions, `prepare` before the call of the provider and `settle` after it, with the
-- call's answer (or none) between them. Instants are seconds in Operation and nanoseconds in
-- Provider/Trust; the zero time of a null column is 0. A nil pointer is `none`; a Go map is an
-- association list in an order of its own, and a set of the keys seen is a list of them. Integers
-- of Go are integers here, with the wrap-around of 64 bits written out where the code subtracts
-- instants that a request gives. Loops over slices and maps are structural recursion. The loops
-- on a counter are the search of maintenanceWindow and the scan of nextScheduleAfter, whose counters
-- of 6,000 are the source's own; for the first, a result says when it is enough. The limit of 100
-- rows in the sweep of overdue operations is that of the queries. The request of an
-- operation takes the whole table of operations; the handlers of access, of modules and of policies
-- take the rows of one organization. Instants of Schedule and Maintenance are seconds since the
-- zero time of Go, so an instant of 0 is the zero time.
--
-- Parameters. What is not code of the repository is an argument: JSON decoding, PEM, PKIX, base64
-- and Ed25519 (the records Formats and Signer), the parser of SSH keys, net.ParseIP, time.Parse and the
-- formatting of an instant, the digest of an identity, locations and their offsets, the rules of the
-- package cron, random ids, hashing, sealing and codes of authenticators, mail.ParseAddress, the
-- answer of a provider to a deletion preview, and the queries of the world. Texts are
-- taken as valid UTF-8, and the stored creation input as an input of the operation's own kind or
-- as one that cannot be read.
--
-- Not modelled: the API's reading lists and views, the request handlers of creations and bulk power,
-- the handlers of schedules, notifications, the administrators of the installation, sign-in and
-- sessions, managed state and automation, audit export, the launcher's containers, the SDK calls of
-- the workers, the console and the command line. They are input and output, calls of other
-- programs, or separate parts that no definition here relies on.
pub mod Prelude
pub mod Regex
pub mod Provider
pub mod Operation
pub mod Access
pub mod Schedule
pub mod Maintenance
pub mod Modules
pub mod Approvals
pub mod Tests
