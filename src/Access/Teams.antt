-- ===== src/Access/Teams.antt =====
-- SaveTeam and DeleteTeam (internal/core/teams.go).
use providah_community.Prelude.{
  ℕ, ◌+◌, ◌==◌, Bool, not, ◌&&◌, ◌||◌, String, len, Option, none, some, List, [], ◌∷◌, ◌++◌,
  if◌then◌else◌, any, all, map, ltb, leb, eqb, length, trim_space,
}
use providah_community.Operation.Tables.{
  Answer, done, ◌>>=◌, ◌>>◌, refuse_if, found, denied, internal, invalid, conflict, audited, is_set,
}
use providah_community.Operation.Review.{Actor}
use providah_community.Access.{
  Team, Access, Change, subset, sorted_set, get_role, get_member, access_lock,
}

-- `SaveTeamRequest` within its organization.
pub record TeamInput : Type 0 where
  pub id : String
  pub name : String
  pub role_id : String
  pub active : Bool
  pub user_ids : List String
  pub expected_revision : ℕ

-- The query `GetTeam`.
unfoldable pub get_team : String → List Team → Option Team
get_team id [] = none
get_team id (t ∷ rest) = if t.id == id then some t else get_team id rest

abbrev team_name_taken : String → String → List Team → Bool
team_name_taken id name teams = any (λ t. not (t.id == id) && t.name == name) teams

-- The query `UpdateTeam` on one row.
unfoldable pub team_row : TeamInput → String → Team → Team
team_row input name t =
    if t.id == input.id && eqb t.revision input.expected_revision
    then record t {
      name = name;
      role_id = input.role_id;
      active = input.active;
      revision = t.revision + 1;
    }
    else t

-- The query `ReplaceTeamMembers`, which removes the users of a team.
unfoldable pub without_team : String → List (String × String) → List (String × String)
without_team id [] = []
without_team id (p ∷ rest) = if p.0 == id then without_team id rest else p ∷ without_team id rest

-- The query `DeleteTeam`.
unfoldable pub delete_row : String → ℕ → List Team → List Team
delete_row id revision [] = []
delete_row id revision (t ∷ rest) =
    if t.id == id && eqb t.revision revision then rest else t ∷ delete_row id revision rest

unfoldable pub check_team_input : TeamInput → String → Answer (Unit {0})
check_team_input input name = do
  refuse_if
      (name == ""
        || ltb 80 (len name)
        || ltb 1000 (length input.user_ids)
        || not (input.id == "") && (not (eqb (len input.id) 64) || ltb input.expected_revision 1))
      (invalid "Choose a team name, current revision and up to 1,000 organization members.")
  refuse_if (not (all (λ id. eqb (len id) 64) input.user_ids))
      (invalid "Choose valid organization members.")

module _ (actor : Actor) (new_id : String) where
  -- The teams with the new one, whose id is fresh.
  unfoldable pub create_team : Access → TeamInput → String → Answer (List Team)
  create_team a input name = do
    refuse_if (leb 100 (length a.teams)) (conflict "This organization already has 100 teams.")
    refuse_if (team_name_taken new_id name a.teams) internal
    done (
        record {
          id = new_id;
          name = name;
          role_id = input.role_id;
          active = input.active;
          revision = 1;
        }
        ∷ a.teams)

  unfoldable pub edit_team : Access → List String → TeamInput → String → Answer (List Team)
  unfolding get_team get_role subset team_row
  edit_team a own input name = do
    old ← found (get_team input.id a.teams) denied
    old_role ← found (get_role old.role_id a.roles) denied
    refuse_if (not (subset old_role.permissions own)) denied
    refuse_if (eqb old.revision input.expected_revision && team_name_taken input.id name a.teams)
        internal
    refuse_if (not (eqb old.revision input.expected_revision))
        (conflict "Team changed. Reload before saving.")
    done (map (team_row input name) a.teams)

  unfoldable pub save_team : Access → TeamInput → Answer Change
  unfolding check_team_input sorted_set access_lock get_role subset create_team edit_team
      without_team get_member
  save_team a input = do
    let name = trim_space input.name
    check_team_input input name
    let ids = sorted_set input.user_ids
    own ← access_lock a actor.user_id "members.manage"
    role ← found (get_role input.role_id a.roles) denied
    refuse_if (not (subset role.permissions own)) denied
    let id = if input.id == "" then new_id else input.id
    teams ← (if input.id == "" then create_team a input name else edit_team a own input name)
    refuse_if (not (all (λ user. is_set (get_member user a.members)) ids))
        (invalid "Every team member must already belong to this organization.")
    done (record {
      access = record a {
        teams = teams;
        team_members = map (λ user. (id, user)) ids ++ without_team id a.team_members;
      };
      effects = audited a.org_id actor.email "team.saved" id ∷ [];
    })

  unfoldable pub delete_team : Access → String → ℕ → Answer Change
  unfolding access_lock get_team get_role subset without_team delete_row
  delete_team a id revision = do
    refuse_if (not (eqb (len id) 64) || ltb revision 1)
        (invalid "Reload the team's current settings.")
    own ← access_lock a actor.user_id "members.manage"
    team ← found (get_team id a.teams) denied
    role ← found (get_role team.role_id a.roles) denied
    refuse_if (not (subset role.permissions own)) denied
    refuse_if (not (eqb team.revision revision)) (conflict "Team changed. Reload before deleting.")
    done (record {
      access = record a {
        teams = delete_row id revision a.teams;
        team_members = without_team id a.team_members;
      };
      effects = audited a.org_id actor.email "team.deleted" id ∷ [];
    })
