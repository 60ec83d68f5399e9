-- ===== src/Migration/Planner/Partition.antt =====
-- The counts of a plan's summary (src/tms/migration/planner.py).
use telegramv.Prelude.{
  ◌∙◌, ℕ, ◌+◌, ◌≡◌, refl, List, [], ◌∷◌, arith, length, length-snoc, inl, inr, Option, none, some,
  Bool-cases, Option-cases,
}
use telegramv.Core.{TargetMemberState}
use telegramv.Storage.{Database}
use telegramv.Members.{FilterSpec}
use telegramv.Jobs.Items.{processed_user_ids_for_target}
use telegramv.Migration.Planner.{
  PlanRow, Tally, PlanInput, Plan, PrecheckResult, start, state_for, MigrationPlanSummary, identity,
  invite_row, invite_rows, remove_row, remove_rows, invite_identified, remove_identified,
  create_plan, create_remove_plan, invite_tally, remove_tally, plan_rows, summary_of,
  is_unavailable,
}

abbrev counted : Tally → ℕ
counted t = t.filtered + t.already + t.invalid + length t.items

invite_identified-counted :
    (input : PlanInput) (t : Tally) (row : PlanRow) (uid : ℕ)
    → counted (invite_identified input t row uid) ≡ counted t + 1
unfolding invite_identified
invite_identified-counted input t row uid =
    ground (arith, length-snoc t.items (row.id, state_for input.precheck.coverage))

invite_row-counted :
    (input : PlanInput) (t : Tally) (row : PlanRow)
    → counted (invite_row input t row) ≡ counted t + 1
unfolding invite_row
invite_row-counted input t row = elim (Option-cases (identity row)) [
  | inl e ↦ rw (e, invite_row) (omega arith)
  | inr (uid, e) ↦ rw (e, invite_row) (invite_identified-counted input t row uid)
]

remove_identified-counted :
    (input : PlanInput) (t : Tally) (row : PlanRow) (uid : ℕ)
    → counted (remove_identified input t row uid) ≡ counted t + 1
unfolding remove_identified
remove_identified-counted input t row uid =
    ground (arith, length-snoc t.items (row.id, TargetMemberState.known_absent))

remove_row-counted :
    (input : PlanInput) (t : Tally) (row : PlanRow)
    → counted (remove_row input t row) ≡ counted t + 1
unfolding remove_row
remove_row-counted input t row = elim (Option-cases (identity row)) [
  | inl e ↦ rw (e, remove_row) (omega arith)
  | inr (uid, e) ↦ rw (e, remove_row) (remove_identified-counted input t row uid)
]

invite_rows-counted :
    (input : PlanInput) (t : Tally) (rows : List PlanRow)
    → counted (invite_rows input t rows) ≡ counted t + length rows
unfolding invite_rows
invite_rows-counted input t [] = omega arith
invite_rows-counted input t (row ∷ rows) =
    omega (
      arith,
      invite_rows-counted input (invite_row input t row) rows,
      invite_row-counted input t row,
    )

remove_rows-counted :
    (input : PlanInput) (t : Tally) (rows : List PlanRow)
    → counted (remove_rows input t rows) ≡ counted t + length rows
unfolding remove_rows
remove_rows-counted input t [] = omega arith
remove_rows-counted input t (row ∷ rows) =
    omega (
      arith,
      remove_rows-counted input (remove_row input t row) rows,
      remove_row-counted input t row,
    )

-- The four counts add up to the source.
abbrev pub IsPartition : MigrationPlanSummary → ℕ → Type 0
IsPartition s n =
    (s.total_source ≡ n) × (s.filtered + s.already_target + s.invalid + s.ready ≡ s.total_source)

summary-IsPartition :
    (rows : List PlanRow) (t : Tally)
    → counted t ≡ length rows
    → IsPartition (summary_of rows t) (length rows)
unfolding summary_of
summary-IsPartition rows t h = (refl, h)

create_plan-IsPartition :
    (account_id source_dataset_id target_group_id : ℕ) (precheck : PrecheckResult)
    (spec : FilterSpec) (db : Database)
    → IsPartition
        (create_plan account_id source_dataset_id target_group_id precheck spec db).summary
        (length (plan_rows account_id source_dataset_id db))
unfolding create_plan
create_plan-IsPartition account_id source_dataset_id target_group_id precheck spec db =
    summary-IsPartition (plan_rows account_id source_dataset_id db)
      (invite_tally account_id source_dataset_id target_group_id precheck spec db)
      (invite_rows-counted
          (record {
            precheck = precheck;
            spec = spec;
            processed = processed_user_ids_for_target target_group_id db;
          })
          start (plan_rows account_id source_dataset_id db)
        ∙ omega arith)

-- A plan that was made has such a summary.
abbrev pub MadeIsPartition : Option Plan → ℕ → Type 0
MadeIsPartition none n = Unit
MadeIsPartition (some p) n = IsPartition p.summary n

create_remove_plan-MadeIsPartition :
    (account_id source_dataset_id target_group_id : ℕ) (precheck : PrecheckResult)
    (spec : FilterSpec) (db : Database)
    → MadeIsPartition
        (create_remove_plan account_id source_dataset_id target_group_id precheck spec db)
        (length (plan_rows account_id source_dataset_id db))
unfolding create_remove_plan
create_remove_plan-MadeIsPartition account_id source_dataset_id target_group_id precheck spec db =
    let rows = plan_rows account_id source_dataset_id db in
    let t = remove_tally account_id source_dataset_id precheck spec db in
    let total : counted t ≡ length rows =
      remove_rows-counted (record { precheck = precheck; spec = spec; processed = [] }) start rows
      ∙ omega arith in
    elim (Bool-cases (is_unavailable precheck.coverage)) [
      | inl e ↦ rw e tt
      | inr e ↦ rw e (summary-IsPartition rows t total)
    ]

-- In both kinds of plan each row of the source falls into exactly one count of the summary: ready,
-- filtered, invalid, or already in the target (for a removal: not in it).
pub plan-IsPartition :
    (account_id source_dataset_id target_group_id : ℕ) (precheck : PrecheckResult)
    (spec : FilterSpec) (db : Database)
    → let size = length (plan_rows account_id source_dataset_id db) in
      IsPartition
        (create_plan account_id source_dataset_id target_group_id precheck spec db).summary
        size
      × MadeIsPartition
          (create_remove_plan account_id source_dataset_id target_group_id precheck spec db)
          size
plan-IsPartition account_id source_dataset_id target_group_id precheck spec db = (
  create_plan-IsPartition account_id source_dataset_id target_group_id precheck spec db,
  create_remove_plan-MadeIsPartition account_id source_dataset_id target_group_id precheck spec db,
)
