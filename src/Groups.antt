-- ===== src/Groups.antt =====
-- src/tms/groups: models.py and repository.py.
pub mod References
use telegramv.Prelude.{
  ℕ, ℤ, ◌+◌, Bool, false, [], ◌∷◌, ◌++◌, Option, none, some, String, ◌==◌, find, update_where,
}
use telegramv.Storage.{Database, GroupRow}
use telegramv.Jobs.Items.{access_hash}

-- A GroupContext has no capabilities where it is read from the database.
pub record GroupContext : Type 0 where
  pub telegram_id : ℕ
  pub access_hash : Option ℤ
  pub title : String
  pub username : Option String
  pub group_type : String
  pub is_member : Bool
  pub is_admin : Bool
  pub can_read : Bool
  pub can_invite : Bool
  pub can_send : Bool
  pub local_group_id : Option ℕ

group_row : ℕ → GroupContext → GroupRow
group_row id g = record {
  id = id;
  telegram_peer_id = g.telegram_id;
  group_type = g.group_type;
  username = g.username;
  title = g.title;
}

-- The row of the conflict is updated, or a new one is inserted; the local id is returned.
unfoldable pub upsert : GroupContext → Database → Database × ℕ
unfolding group_row
upsert g db = elim (find (λ row. row.telegram_peer_id == g.telegram_id) db.groups) [
  | some row ↦ (
    record db {
      groups =
          update_where (λ other. other.telegram_peer_id == g.telegram_id)
            (λ other. group_row other.id g) db.groups;
    },
    row.id,
  )
  | none ↦ (
    record db {
      groups = db.groups ++ group_row db.next_group g ∷ [];
      next_group = db.next_group + 1;
    },
    db.next_group,
  )
]

context : Option ℤ → GroupRow → GroupContext
context hash row = record {
  telegram_id = row.telegram_peer_id;
  access_hash = hash;
  title = row.title;
  username = row.username;
  group_type = row.group_type;
  is_member = false;
  is_admin = false;
  can_read = false;
  can_invite = false;
  can_send = false;
  local_group_id = some row.id;
}

-- `get`, for an account's view of the group or for none's
unfoldable pub get : ℕ → Option ℕ → Database → Option GroupContext
unfolding context
get local_id account_id db = elim (find (λ row. row.id == local_id) db.groups) [
  | none ↦ none
  | some row ↦ some (
      context
        (elim account_id [
          | none ↦ none
          | some account ↦ access_hash account (some row.telegram_peer_id) db.peer_cache
        ])
        row)
]
