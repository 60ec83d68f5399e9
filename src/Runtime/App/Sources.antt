-- ===== src/Runtime/App/Sources.antt =====
-- The commands of src/tms/runtime/command_handlers.py on groups: resolving, joining and leaving them,
-- and the source. What the gateway answers is an argument of the task's end.
use telegramv.Prelude.{ℕ, List, [], ◌∷◌, none, some, String}
use telegramv.Core.{Result}
use telegramv.Storage.{Database}
use telegramv.Groups
use telegramv.Groups.{GroupContext}
use telegramv.Runtime.Commands.{Answer}
use telegramv.Runtime.StateStore.{Change}
use telegramv.Runtime.App.{
  App, Task, Value, publish, submit, update_state, done, with_db, enabled_account,
}

abbrev with_local_id : GroupContext → ℕ → GroupContext
with_local_id group local_id = record group { local_group_id = some local_id }

-- `_resolve_and_persist`, for the gateway's answer
unfoldable pub resolve_and_persist : Result GroupContext → Database → Database × Result GroupContext
resolve_and_persist (Result.raised e) db = (db, Result.raised e)
resolve_and_persist (Result.returned group) db =
    let (db', local_id) = Groups.upsert group db in
    (db', Result.returned (with_local_id group local_id))

-- A task that resolves a group first.
resolved : String → (GroupContext → App → App) → Result GroupContext → App → App
unfolding resolve_and_persist with_db done
resolved command on_success answer app =
    let (db, result) = resolve_and_persist answer app.session.db in
    done command on_success result (with_db db app)

unfoldable pub resolve_source : ℕ → String → App → Answer App
unfolding submit enabled_account
resolve_source account_id reference app =
    enabled_account account_id app
      (λ _. Answer.accepted (submit (Task.resolve_source account_id reference) app))

-- The source that is resolved, or selected in a list.
unfoldable pub select_source_group : ℕ → GroupContext → App → App
unfolding publish update_state
select_source_group account_id group app =
    publish "SourceGroupResolved" (("group", Value.group group) ∷ []) (
      update_state
        (Change.source_group (some group) ∷ Change.source_account_id (some account_id) ∷ []) app)

unfoldable pub source_resolved : ℕ → Result GroupContext → App → App
unfolding resolved select_source_group
source_resolved account_id = resolved "source.resolve" (select_source_group account_id)

unfoldable pub joined_groups : ℕ → App → Answer App
unfolding submit enabled_account
joined_groups account_id app =
    enabled_account account_id app
      (λ _. Answer.accepted (submit (Task.joined_groups account_id) app))

-- The groups with their local ids, one after another.
unfoldable pub persist_groups : List GroupContext → Database → Database × List GroupContext
persist_groups [] db = (db, [])
persist_groups (group ∷ groups) db =
    let (db', local_id) = Groups.upsert group db in
    let (db'', rest) = persist_groups groups db' in (db'', with_local_id group local_id ∷ rest)

unfoldable pub groups_loaded : ℕ → Result (List GroupContext) → App → App
unfolding done persist_groups with_db publish
groups_loaded account_id answer app =
    done "source.joined_groups"
      (λ groups app'.
        let (db, persisted) = persist_groups groups app'.session.db in
        publish "JoinedGroupsLoaded"
          (("account_id", Value.number account_id) ∷ ("groups", Value.groups persisted) ∷ [])
          (with_db db app'))
      answer app

unfoldable pub resolve_target : ℕ → String → App → Answer App
unfolding submit enabled_account
resolve_target account_id reference app =
    enabled_account account_id app
      (λ _. Answer.accepted (submit (Task.resolve_target account_id reference) app))

unfoldable pub select_target : ℕ → GroupContext → App → App
unfolding publish update_state
select_target account_id group app =
    publish "TargetGroupResolved" (("group", Value.group group) ∷ []) (
      update_state
        (Change.target_group (some group)
          ∷ Change.target_account_id (some account_id)
          ∷ Change.precheck none
          ∷ Change.migration_job_id none
          ∷ [])
        app)

unfoldable pub target_resolved : ℕ → Result GroupContext → App → App
unfolding resolved select_target
target_resolved account_id = resolved "target.resolve" (select_target account_id)

unfoldable pub join_group : ℕ → String → App → Answer App
unfolding submit enabled_account
join_group account_id reference app =
    enabled_account account_id app
      (λ _. Answer.accepted (submit (Task.join_group account_id reference) app))

utility_completed : String → GroupContext → App → App
unfolding publish
utility_completed action group app =
    publish "UtilityCompleted" (("action", Value.words action) ∷ ("group", Value.group group) ∷ [])
      app

unfoldable pub group_joined : Result GroupContext → App → App
unfolding done utility_completed
group_joined answer app = done "utility.join" (utility_completed "join") answer app

unfoldable pub leave_group : ℕ → String → App → Answer App
unfolding submit enabled_account
leave_group account_id reference app =
    enabled_account account_id app
      (λ _. Answer.accepted (submit (Task.leave_group account_id reference) app))

-- The group is resolved, and then left; `answer` is what leaving it comes to.
unfoldable pub group_left : Result GroupContext → Result Unit → App → App
unfolding resolved done utility_completed
group_left group answer app =
    resolved "utility.leave"
      (λ resolved_group app'.
        done "utility.leave" (λ _ app''. utility_completed "leave" resolved_group app'') answer
          app')
      group app
