-- ===== src/Tests/Planner.antt =====
-- The plans over a dataset of three members.
use telegramv.Prelude.{◌≡◌, refl, length, map, select, sort_by, [], ◌∷◌}
use telegramv.Core.{TargetCoverage, TargetMemberState}
use telegramv.Members.{default_spec}
use telegramv.Jobs.Items.{processed_user_ids_for_target, access_hash}
use telegramv.Migration.Planner.{
  PrecheckResult, plan_rows, create_plan, create_remove_plan, invite_tally, remove_tally, state_for,
  identity,
}
use telegramv.Migration.Planner.Partition.{IsPartition, MadeIsPartition, plan-IsPartition}
use telegramv.Migration.Planner.Selection.{Distinct, invitable, removable, plan_selection}
use telegramv.Tests.Fixtures.{source}

abbrev precheck : PrecheckResult
precheck = record { target_ids = 200 ∷ []; coverage = TargetCoverage.partial }

plan-IsPartition_example :
    IsPartition
      (create_plan 1 1 1 precheck default_spec source).summary
      (length (plan_rows 1 1 source))
    × MadeIsPartition
        (create_remove_plan 1 1 1 precheck default_spec source)
        (length (plan_rows 1 1 source))
plan-IsPartition_example = plan-IsPartition 1 1 1 precheck default_spec source

source-Distinct : Distinct (plan_rows 1 1 source)
unfolding plan_rows identity sort_by access_hash
source-Distinct = ((refl, (refl, tt)), ((refl, tt), (tt, tt)))

plan_selection_example :
    ((invite_tally 1 1 1 precheck default_spec source).items
      ≡ map
          (λ row. (row.id, state_for precheck.coverage))
          (select
            (invitable (record {
              precheck = precheck;
              spec = default_spec;
              processed = processed_user_ids_for_target 1 source;
            }))
            (plan_rows 1 1 source)))
    × (remove_tally 1 1 precheck default_spec source).items
      ≡ map
          (λ row. (row.id, TargetMemberState.known_absent))
          (select
            (removable (record { precheck = precheck; spec = default_spec; processed = [] }))
            (plan_rows 1 1 source))
plan_selection_example = plan_selection 1 1 1 precheck default_spec source source-Distinct
