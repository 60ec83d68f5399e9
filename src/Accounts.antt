-- ===== src/Accounts.antt =====
-- src/tms/accounts: models.py, repository.py and v12_repository.py. An operation is the transaction
-- that the repository hands to the database writer.
use telegramv.Prelude.{
  ℕ, ◌+◌, Bool, true, false, ◌&&◌, not, List, [], ◌∷◌, ◌++◌, Option, none, some, String, ◌==◌,
  str_eq, if◌then◌else◌, select, find, update_where, sort_by, is_some,
}
use mathlib.Core.List.{reverse}
use telegramv.Core.{AccountState, ConnectionState, OperationState}
use telegramv.Storage.{AccountRow, JobRow, RestrictionRow, Database}
use telegramv.Jobs.{sql_eq, is_terminal}

-- `V12AccountRepository._split`
unfoldable pub split : AccountState → ConnectionState × OperationState
split AccountState.connecting = (ConnectionState.connecting, OperationState.idle)
split AccountState.auth_required = (ConnectionState.auth_required, OperationState.idle)
split AccountState.disabled = (ConnectionState.disabled, OperationState.idle)
split AccountState.disconnected = (ConnectionState.disconnected, OperationState.idle)
split AccountState.busy = (ConnectionState.ready, OperationState.running)
split AccountState.waiting_server = (ConnectionState.ready, OperationState.waiting_server)
split AccountState.error = (ConnectionState.error, OperationState.paused)
split AccountState.ready = (ConnectionState.ready, OperationState.idle)

new_row : ℕ → String → String → AccountRow
new_row id phone session_path = record {
  id = id;
  phone = phone;
  session_path = session_path;
  telegram_user_id = none;
  username = none;
  display_name = none;
  status = AccountState.disconnected;
  connection_state = ConnectionState.disconnected;
  operation_state = OperationState.idle;
  enabled = true;
  last_error = none;
}

-- `none` is the IntegrityError of the UNIQUE phone column.
unfoldable pub create : String → String → Database → Option (Database × ℕ)
unfolding new_row
create phone session_path db =
    if is_some (find (λ row. str_eq row.phone phone) db.accounts)
    then none
    else some (
      record db {
        accounts = db.accounts ++ new_row db.next_account phone session_path ∷ [];
        next_account = db.next_account + 1;
      },
      db.next_account,
    )

unfoldable pub get : ℕ → Database → Option AccountRow
get account_id db = find (λ row. row.id == account_id) db.accounts

unfoldable pub list_all : Database → List AccountRow
list_all db = sort_by (λ row. row.id) db.accounts

unfoldable pub set_row_state : AccountState → Option String → AccountRow → AccountRow
unfolding split
set_row_state state error row = record row {
  status = state;
  connection_state = (split state).0;
  operation_state = (split state).1;
  last_error = error;
}

-- `V12AccountRepository.submit_set_state`
unfoldable pub set_state : ℕ → AccountState → Option String → Database → Database
unfolding set_row_state
set_state account_id state error db = record db {
  accounts = update_where (λ row. row.id == account_id) (set_row_state state error) db.accounts;
}

unfoldable pub update_identity : ℕ → Option ℕ → Option String → Option String → Database → Database
update_identity account_id user_id username display_name db = record db {
  accounts =
      update_where (λ row. row.id == account_id)
        (λ row. record row {
          telegram_user_id = user_id;
          username = username;
          display_name = display_name;
          status = AccountState.ready;
          last_error = none;
        })
        db.accounts;
}

unfoldable pub enable : ℕ → Bool → Database → Database
enable account_id enabled db = record db {
  accounts =
      update_where (λ row. row.id == account_id)
        (λ row. record row {
          enabled = enabled;
          status = if enabled then AccountState.disconnected else AccountState.disabled;
        })
        db.accounts;
}

-- A job of the account that is not in a terminal state.
abbrev pub is_open : ℕ → JobRow → Bool
is_open account_id row = sql_eq row.account_id account_id && not (is_terminal row.state)

-- The account's peers and restrictions go by ON DELETE CASCADE. `none` is the RuntimeError.
unfoldable pub delete : ℕ → Database → Option Database
unfolding is_terminal
delete account_id db =
    if is_some (find (is_open account_id) db.jobs)
    then none
    else some (record db {
      jobs =
          update_where (λ row. sql_eq row.account_id account_id)
            (λ row. record row { account_id = none }) db.jobs;
      accounts = select (λ row. not (row.id == account_id)) db.accounts;
      peer_cache = select (λ row. not (row.account_id == account_id)) db.peer_cache;
      restrictions = select (λ row. not (row.account_id == account_id)) db.restrictions;
    })

-- What `submit_restriction` is told beside the account.
pub record Restriction : Type 0 where
  pub action_type : String
  pub restriction_type : String
  pub rpc_code : Option ℕ
  pub exception_name : Option String
  pub request_type : Option String

abbrev pub is_active : ℕ → Restriction → RestrictionRow → Bool
is_active account_id r row =
    row.account_id == account_id
    && str_eq row.action_type r.action_type
    && str_eq row.restriction_type r.restriction_type
    && not row.cleared

refresh : Restriction → RestrictionRow → RestrictionRow
refresh r row = record row {
  rpc_code = r.rpc_code;
  exception_name = r.exception_name;
  request_type = r.request_type;
}

restriction_row : ℕ → ℕ → Restriction → RestrictionRow
restriction_row id account_id r = record {
  id = id;
  account_id = account_id;
  action_type = r.action_type;
  restriction_type = r.restriction_type;
  rpc_code = r.rpc_code;
  exception_name = r.exception_name;
  request_type = r.request_type;
  cleared = false;
}

-- The newest active restriction of the same kind is refreshed, or a new one is inserted.
unfoldable pub restrict : ℕ → Restriction → Database → Database
unfolding refresh restriction_row
restrict account_id r db =
    elim (find (is_active account_id r) (reverse (sort_by (λ row. row.id) db.restrictions))) [
      | some row ↦ record db {
        restrictions = update_where (λ other. other.id == row.id) (refresh r) db.restrictions;
      }
      | none ↦ record db {
        restrictions = db.restrictions ++ restriction_row db.next_restriction account_id r ∷ [];
        next_restriction = db.next_restriction + 1;
      }
    ]

unfoldable pub active_restrictions : ℕ → Database → List RestrictionRow
active_restrictions account_id db = reverse (
    sort_by (λ row. row.id)
      (select (λ row. row.account_id == account_id && not row.cleared) db.restrictions))
