-- ===== src/Members/Repository/Provenance.antt =====
-- A member that src/tms/members/repository.py records again, as a replayed ingestion does.

use telegramv.Prelude.{Bool, List, [], ◌∷◌, ◌++◌, find, is_some, update_where, if◌then◌else◌}

module _ {A : Type 0} (p : A → Bool) where
  -- INSERT OR IGNORE, for rows whose key passes the test
  abbrev or_ignore : A → List A → List A
  or_ignore new rows = if is_some (find p rows) then rows else rows ++ new ∷ []

  -- INSERT … ON CONFLICT DO UPDATE
  abbrev or_update : (A → A) → A → List A → List A
  or_update f new rows = if is_some (find p rows) then update_where p f rows else rows ++ new ∷ []
