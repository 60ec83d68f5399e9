-- ===== src/Runtime/StateStore.antt =====
-- src/tms/runtime/state_store.py. A snapshot is the value of the state.
use telegramv.Prelude.{
  ℕ, Bool, List, [], ◌∷◌, Option, none, some, String, ◌==◌, ==_iff, ◌≡◌, refl, true, false, ◌∙◌,
}
use telegramv.Prelude.Maps.{
  lookup, assign, remove, lookup-assign-same, lookup-assign-other, lookup-remove-same,
  lookup-remove-other,
}
use telegramv.Groups.{GroupContext}
use telegramv.Migration.Planner.{PrecheckResult, MigrationPlanSummary}

pub record StateSnapshot : Type 0 where
  pub active_account_id : Option ℕ
  pub source_group : Option GroupContext
  pub source_account_id : Option ℕ
  pub target_group : Option GroupContext
  pub target_account_id : Option ℕ
  pub source_dataset_id : Option ℕ
  pub precheck : Option PrecheckResult
  pub migration_job_id : Option ℕ
  pub plan_summary : Option MigrationPlanSummary
  pub phone_code_hashes : List (ℕ × String)

abbrev pub initial : StateSnapshot
initial = record {
  active_account_id = none;
  source_group = none;
  source_account_id = none;
  target_group = none;
  target_account_id = none;
  source_dataset_id = none;
  precheck = none;
  migration_job_id = none;
  plan_summary = none;
  phone_code_hashes = [];
}

-- A keyword argument of `update`; `other` is a name that the state does not have.
pub data Change : Type 0 where
  active_account_id : Option ℕ → Change
  source_group : Option GroupContext → Change
  source_account_id : Option ℕ → Change
  target_group : Option GroupContext → Change
  target_account_id : Option ℕ → Change
  source_dataset_id : Option ℕ → Change
  precheck : Option PrecheckResult → Change
  migration_job_id : Option ℕ → Change
  plan_summary : Option MigrationPlanSummary → Change
  phone_code_hashes : List (ℕ × String) → Change
  other : String → Change

-- `setattr`; `none` is the AttributeError.
unfoldable pub set_attribute : Change → StateSnapshot → Option StateSnapshot
set_attribute (Change.active_account_id v) s = some (record s { active_account_id = v })
set_attribute (Change.source_group v) s = some (record s { source_group = v })
set_attribute (Change.source_account_id v) s = some (record s { source_account_id = v })
set_attribute (Change.target_group v) s = some (record s { target_group = v })
set_attribute (Change.target_account_id v) s = some (record s { target_account_id = v })
set_attribute (Change.source_dataset_id v) s = some (record s { source_dataset_id = v })
set_attribute (Change.precheck v) s = some (record s { precheck = v })
set_attribute (Change.migration_job_id v) s = some (record s { migration_job_id = v })
set_attribute (Change.plan_summary v) s = some (record s { plan_summary = v })
set_attribute (Change.phone_code_hashes v) s = some (record s { phone_code_hashes = v })
set_attribute (Change.other key) s = none

-- `update`: the state that is left, and the key of the AttributeError where there is one.
unfoldable pub update : List Change → StateSnapshot → StateSnapshot × Option Change
unfolding set_attribute
update [] s = (s, none)
update (change ∷ rest) s = elim (set_attribute change s) [
  | none ↦ (s, some change)
  | some s' ↦ update rest s'
]

unfoldable pub get_phone_code_hash : ℕ → StateSnapshot → Option String
get_phone_code_hash account_id s = lookup (λ a b. a == b) account_id s.phone_code_hashes

unfoldable pub set_phone_code_hash : ℕ → String → StateSnapshot → StateSnapshot
set_phone_code_hash account_id phone_code_hash s = record s {
  phone_code_hashes = assign (λ a b. a == b) account_id phone_code_hash s.phone_code_hashes;
}

unfoldable pub pop_phone_code_hash : ℕ → StateSnapshot → StateSnapshot × Option String
pop_phone_code_hash account_id s = (
  record s { phone_code_hashes = remove (λ a b. a == b) account_id s.phone_code_hashes },
  lookup (λ a b. a == b) account_id s.phone_code_hashes,
)

-- A code hash that is set is the one that is taken out, after which the account has none; the other
-- accounts keep theirs through both.
pub pop-set_phone_code_hash :
    (account_id neighbour : ℕ) (code : String) (s : StateSnapshot)
    → (account_id == neighbour) ≡ false
    → ((pop_phone_code_hash account_id (set_phone_code_hash account_id code s)).1 ≡ some code)
      × (get_phone_code_hash account_id
            (pop_phone_code_hash account_id (set_phone_code_hash account_id code s)).0
          ≡ none)
      × (get_phone_code_hash neighbour
            (pop_phone_code_hash account_id (set_phone_code_hash account_id code s)).0
          ≡ get_phone_code_hash neighbour s)
unfolding get_phone_code_hash set_phone_code_hash pop_phone_code_hash
pop-set_phone_code_hash account_id neighbour code s apart =
    let eq : ℕ → ℕ → Bool = λ a b. a == b in
    let same : (a b : ℕ) → eq a b ≡ true → a ≡ b = λ a b. (==_iff a b).0 in
    (
      lookup-assign-same eq account_id code s.phone_code_hashes
          ((==_iff account_id account_id).1 refl),
      lookup-remove-same eq account_id (assign eq account_id code s.phone_code_hashes),
      lookup-remove-other eq account_id neighbour (assign eq account_id code s.phone_code_hashes)
            same apart
          ∙ lookup-assign-other eq account_id neighbour code s.phone_code_hashes same apart,
    )
