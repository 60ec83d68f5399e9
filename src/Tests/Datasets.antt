-- ===== src/Tests/Datasets.antt =====
-- Two datasets that share a member, and a file.
use telegramv.Prelude.{ℕ, false, [], ◌∷◌, map, none, some, ◌≡◌, refl, length, contains}
use mathlib.Core.Option
use telegramv.Storage.{Database, DatasetMemberRow}
use telegramv.Datasets
use telegramv.Datasets.{member_ids, member_rows, join_members}
use telegramv.Datasets.Keys.{IsKeyed}
use telegramv.Datasets.Service.{Operation, combine_datasets}
use telegramv.Datasets.Sets.Combine.{engine, combine-engine, combine_with_itself}
use telegramv.Datasets.Counts.{combine-count}
use telegramv.Jobs
use telegramv.Accounts
use telegramv.Members.Repository.Paging.{
  iter_dataset_rows, concat, iter-member_rows, member_from_row,
}
use telegramv.ImportExport.{File}
use telegramv.Tests.Fixtures.{source}

abbrev row : ℕ → ℕ → DatasetMemberRow
row dataset_id member_id = record {
  dataset_id = dataset_id;
  member_id = member_id;
  source_group_id = none;
}

-- The datasets 1 with the members 1 and 2, and 2 with 2 and 3.
abbrev two : Database
two = record source {
  dataset_members = row 1 1 ∷ row 1 2 ∷ row 2 2 ∷ row 2 3 ∷ [];
  next_dataset = 3;
}

keyed : IsKeyed two.dataset_members
keyed = (refl, (refl, (refl, (refl, tt))))

shared :
    member_ids 3 (combine_datasets "" 1 2 Operation.intersection two).0.dataset_members ≡ 2 ∷ []
unfolding combine_datasets Datasets.create
shared = refl

combine-engine_example :
    contains (member_ids 3 (combine_datasets "" 1 2 Operation.intersection two).0.dataset_members) 2
    ≡ contains (engine Operation.intersection (1 ∷ 2 ∷ []) (2 ∷ 3 ∷ [])) 2
combine-engine_example = combine-engine "" 1 2 2 Operation.intersection two refl refl

combine_with_itself_example :
    contains (member_ids 3 (combine_datasets "" 1 1 Operation.intersection two).0.dataset_members) 2
    ≡ false
combine_with_itself_example = combine_with_itself "" 1 2 two refl

combine-count_example :
    Option.map
      (λ d. d.member_count)
      (Datasets.get 3 (combine_datasets "" 1 2 Operation.difference two).0)
    ≡ some
        (length (member_ids 3 (combine_datasets "" 1 2 Operation.difference two).0.dataset_members))
unfolding Datasets.get
combine-count_example = combine-count "" 1 2 Operation.difference two keyed refl refl

iter-member_rows_example :
    Option.map concat (iter_dataset_rows 1 1 two) ≡ some (map member_from_row (member_rows 1 two))
iter-member_rows_example = iter-member_rows 1 1 two

abbrev file : File
file = record { path = "a.txt"; stem = "a"; name = "a.txt" }
