-- ===== src/Migration/Planner/Selection.antt =====
-- What the plans select, against a specification that looks at each row by itself.
use mathlib.Core.List.{append_assoc, append-nil}
use telegramv.Prelude.{
  ℕ, ◌≡◌, refl, ◌∙◌, sym, Bool, false, not, ◌&&◌, ◌||◌, List, [], ◌∷◌, ◌++◌, map, Option, none,
  some, arith, ◌==◌, if◌then◌else◌, select, contains, All, Option-cases, Bool-cases, inl, inr,
}
use telegramv.Core.{TargetMemberState}
use telegramv.Storage.{Database}
use telegramv.Members.{FilterSpec}
use telegramv.Jobs.Items.{processed_user_ids_for_target}
use telegramv.Migration.Planner.{
  PlanRow, PrecheckResult, PlanInput, Tally, start, identity, excluded, row_is_valid, state_for,
  invite_identified, invite_row, invite_rows, invite_tally, remove_identified, remove_row,
  remove_rows, remove_tally, plan_rows,
}

abbrev same_user : Option ℕ → Option ℕ → Bool
same_user none b = false
same_user (some a) none = false
same_user (some a) (some b) = a == b

-- No two rows are the same Telegram user; `members.telegram_user_id` is UNIQUE.
abbrev pub Distinct : List PlanRow → Type 0
Distinct [] = Unit
Distinct (row ∷ rows) =
    All (λ other. same_user (identity row) (identity other) ≡ false) rows × Distinct rows

abbrev is_seen : List ℕ → Option ℕ → Bool
is_seen seen none = false
is_seen seen (some uid) = contains seen uid

abbrev Unseen : List ℕ → List PlanRow → Type 0
Unseen seen rows = All (λ row. is_seen seen (identity row) ≡ false) rows

-- The users that a plan takes, each looked at by itself.
abbrev pub invitable : PlanInput → PlanRow → Bool
invitable input row = elim (identity row) [
  | none ↦ false
  | some uid ↦ not (excluded input row uid) && not (contains input.precheck.target_ids uid)
]

abbrev pub removable : PlanInput → PlanRow → Bool
removable input row = elim (identity row) [
  | none ↦ false
  | some uid ↦ row_is_valid row input.spec && contains input.precheck.target_ids uid
]

cons-Unseen :
    (uid : ℕ) (seen : List ℕ) (rows : List PlanRow)
    → All (λ other. same_user (some uid) (identity other) ≡ false) rows
    → Unseen seen rows
    → Unseen (uid ∷ seen) rows
cons-Unseen uid seen [] a u = tt
cons-Unseen uid seen (row ∷ rows) a u =
    (one (identity row) a.0 u.0, cons-Unseen uid seen rows a.1 u.1)
  where
    one :
        (o : Option ℕ)
        → same_user (some uid) o ≡ false
        → is_seen seen o ≡ false
        → is_seen (uid ∷ seen) o ≡ false
    one none h k = refl
    one (some v) h k = ground arith

-- A loop that adds a row's item exactly if the row passes a test, and sees its user at most.
module _ (step : Tally → PlanRow → Tally) (passes : PlanRow → Bool)
    (item : PlanRow → ℕ × TargetMemberState) (rounds : Tally → List PlanRow → Tally)
    (rounds_nil : (t : Tally) → rounds t [] ≡ t)
    (rounds_cons : (t : Tally) (row : PlanRow) (rows : List PlanRow)
      → rounds t (row ∷ rows) ≡ rounds (step t row) rows)
    (step_items : (t : Tally) (row : PlanRow)
      → is_seen t.seen (identity row) ≡ false
      → (step t row).items ≡ t.items ++ (if passes row then item row ∷ [] else []))
    (step_seen : (t : Tally) (row : PlanRow) (rows : List PlanRow)
      → All (λ other. same_user (identity row) (identity other) ≡ false) rows
      → Unseen t.seen rows
      → Unseen (step t row).seen rows) where
  add_item :
      (row : PlanRow) (xs : List (ℕ × TargetMemberState)) (rows : List PlanRow)
      → (xs ++ (if passes row then item row ∷ [] else [])) ++ map item (select passes rows)
        ≡ xs ++ map item (select passes (row ∷ rows))
  add_item row xs rows = elim (Bool-cases (passes row)) [
    | inl e ↦ rw e (append_assoc xs (item row ∷ []) (map item (select passes rows)))
    | inr e ↦ rw e (rw (append-nil xs) refl)
  ]

  loop_items :
      (t : Tally) (rows : List PlanRow)
      → Distinct rows
      → Unseen t.seen rows
      → (rounds t rows).items ≡ t.items ++ map item (select passes rows)
  loop_items t [] d u = rw (rounds_nil t) (sym (append-nil t.items))
  loop_items t (row ∷ rows) d u = rw (rounds_cons t row rows) (
      loop_items (step t row) rows d.1 (step_seen t row rows d.0 u.1)
      ∙ (rw (step_items t row u.0) (add_item row t.items rows)))

module _ (input : PlanInput) where
  invite_item : PlanRow → ℕ × TargetMemberState
  invite_item row = (row.id, state_for input.precheck.coverage)

  not_invitable : (row : PlanRow) → identity row ≡ none → invitable input row ≡ false
  not_invitable row e = rw (e, invitable) refl

  invite_row-items :
      (t : Tally) (row : PlanRow)
      → is_seen t.seen (identity row) ≡ false
      → (invite_row input t row).items
        ≡ t.items ++ (if invitable input row then invite_item row ∷ [] else [])
  unfolding invite_row invite_identified invite_item
  invite_row-items t row u = elim (Option-cases (identity row)) [
    | inl e ↦ rw (invite_row, not_invitable row e, e) (sym (append-nil t.items))
    | inr (uid, e) ↦
        let fresh : is_seen t.seen (some uid) ≡ false = rw e at u in
        rw (e, invite_row) (ground (arith, fresh, append-nil t.items))
  ]

  invite_identified-seen :
      (t : Tally) (row : PlanRow) (uid : ℕ) (P : List ℕ → Type 0)
      → P t.seen
      → P (uid ∷ t.seen)
      → P (invite_identified input t row uid).seen
  unfolding invite_identified
  invite_identified-seen t row uid P old new =
      elim (Bool-cases (contains t.seen uid || excluded input row uid)) [
        | inl e ↦ rw e old
        | inr e ↦ elim (Bool-cases (contains input.precheck.target_ids uid)) [
          | inl k ↦ rw (e, k) new
          | inr k ↦ rw (e, k) new
        ]
      ]

  invite_row-seen :
      (t : Tally) (row : PlanRow) (rows : List PlanRow)
      → All (λ other. same_user (identity row) (identity other) ≡ false) rows
      → Unseen t.seen rows
      → Unseen (invite_row input t row).seen rows
  unfolding invite_row invite_identified
  invite_row-seen t row rows a u = elim (Option-cases (identity row)) [
    | inl e ↦ rw (e, invite_row) u
    | inr (uid, e) ↦
        let apart : All (λ other. same_user (some uid) (identity other) ≡ false) rows = rw e at a in
        rw (e, invite_row)
          (invite_identified-seen t row uid (λ seen. Unseen seen rows) u
            (cons-Unseen uid t.seen rows apart u))
  ]

  remove_item : PlanRow → ℕ × TargetMemberState
  remove_item row = (row.id, TargetMemberState.known_absent)

  not_removable : (row : PlanRow) → identity row ≡ none → removable input row ≡ false
  not_removable row e = rw (e, removable) refl

  remove_row-items :
      (t : Tally) (row : PlanRow)
      → is_seen t.seen (identity row) ≡ false
      → (remove_row input t row).items
        ≡ t.items ++ (if removable input row then remove_item row ∷ [] else [])
  unfolding remove_row remove_identified remove_item
  remove_row-items t row u = elim (Option-cases (identity row)) [
    | inl e ↦ rw (remove_row, not_removable row e, e) (sym (append-nil t.items))
    | inr (uid, e) ↦
        let fresh : is_seen t.seen (some uid) ≡ false = rw e at u in
        rw (e, remove_row) (ground (arith, fresh, append-nil t.items))
  ]

  remove_identified-seen :
      (t : Tally) (row : PlanRow) (uid : ℕ) (P : List ℕ → Type 0)
      → P t.seen
      → P (uid ∷ t.seen)
      → P (remove_identified input t row uid).seen
  unfolding remove_identified
  remove_identified-seen t row uid P old new =
      elim (Bool-cases (contains t.seen uid || not (row_is_valid row input.spec))) [
        | inl e ↦ rw e old
        | inr e ↦ elim (Bool-cases (contains input.precheck.target_ids uid)) [
          | inl k ↦ rw (e, k) new
          | inr k ↦ rw (e, k) new
        ]
      ]

  remove_row-seen :
      (t : Tally) (row : PlanRow) (rows : List PlanRow)
      → All (λ other. same_user (identity row) (identity other) ≡ false) rows
      → Unseen t.seen rows
      → Unseen (remove_row input t row).seen rows
  unfolding remove_row remove_identified
  remove_row-seen t row rows a u = elim (Option-cases (identity row)) [
    | inl e ↦ rw (e, remove_row) u
    | inr (uid, e) ↦
        let apart : All (λ other. same_user (some uid) (identity other) ≡ false) rows = rw e at a in
        rw (e, remove_row)
          (remove_identified-seen t row uid (λ seen. Unseen seen rows) u
            (cons-Unseen uid t.seen rows apart u))
  ]

none_seen : (rows : List PlanRow) → Unseen [] rows
none_seen [] = tt
none_seen (row ∷ rows) = (one (identity row), none_seen rows)
  where
    one : (o : Option ℕ) → is_seen [] o ≡ false
    one none = refl
    one (some uid) = refl

-- Where no two rows of the dataset are the same Telegram user, the items of an invitation plan
-- are, in the order of the rows, exactly the rows that have an identity, are not excluded and are
-- not known to be in the target, and those of a removal plan exactly the rows that pass the
-- filter and are known to be in the target.
pub plan_selection :
    (account_id dataset_id target_group_id : ℕ) (precheck : PrecheckResult) (spec : FilterSpec)
    (db : Database)
    → Distinct (plan_rows account_id dataset_id db)
    → (let input : PlanInput = record {
      precheck = precheck;
      spec = spec;
      processed = processed_user_ids_for_target target_group_id db;
    } in
        (invite_tally account_id dataset_id target_group_id precheck spec db).items
        ≡ map
            (λ row. (row.id, state_for precheck.coverage))
            (select (invitable input) (plan_rows account_id dataset_id db)))
      × (remove_tally account_id dataset_id precheck spec db).items
        ≡ map
            (λ row. (row.id, TargetMemberState.known_absent))
            (select
              (removable (record { precheck = precheck; spec = spec; processed = [] }))
              (plan_rows account_id dataset_id db))
unfolding invite_tally remove_tally invite_rows remove_rows invite_item remove_item
plan_selection account_id dataset_id target_group_id precheck spec db d =
    let rows = plan_rows account_id dataset_id db in
    let inviting : PlanInput = record {
      precheck = precheck;
      spec = spec;
      processed = processed_user_ids_for_target target_group_id db;
    } in
    let removing : PlanInput = record { precheck = precheck; spec = spec; processed = [] } in
    (
      loop_items (invite_row inviting) (invitable inviting) (invite_item inviting)
          (invite_rows inviting) (λ t. refl) (λ t row rest. refl) (invite_row-items inviting)
          (invite_row-seen inviting) start rows d (none_seen rows),
      loop_items (remove_row removing) (removable removing) (remove_item removing)
          (remove_rows removing) (λ t. refl) (λ t row rest. refl) (remove_row-items removing)
          (remove_row-seen removing) start rows d (none_seen rows),
    )
