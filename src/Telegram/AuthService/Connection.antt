-- ===== src/Telegram/AuthService/Connection.antt =====
-- The account's row around src/tms/telegram/auth_service.py, with
-- src/tms/accounts/v12_repository.py.
use telegramv.Prelude.{ℕ, String, Option, none, some, true, ◌==◌, ◌≡◌, refl, ◌∙◌, ap, find-changed}
use mathlib.Core.Option
use telegramv.Core.{AccountState, ConnectionState, OperationState, Result}
use telegramv.Storage.{Database, AccountRow}
use telegramv.Accounts
use telegramv.Accounts.{set_row_state, split}
use telegramv.Telegram.AuthService.{
  Client, User, connect_existing, refresh_identity, identity_of, client_for, or_error,
  connect_authorized, and_then, read_identity, Auth, with_identity,
}

and_then-returned :
    {A B : Type 0} (a : A) (f : A → Auth B) (db : Database)
    → and_then (Result.returned a) f db ≡ f a db
unfolding and_then
and_then-returned a f db = refl

-- The row of an account that is connected.
abbrev connected_row : User → AccountRow → AccountRow
connected_row me row = record row {
  telegram_user_id = (identity_of me).telegram_user_id;
  username = (identity_of me).username;
  display_name = (identity_of me).display_name;
  status = AccountState.ready;
  connection_state = ConnectionState.connecting;
  operation_state = OperationState.idle;
  last_error = none;
}

pub get-set_state :
    (account_id : ℕ) (state : AccountState) (error : Option String) (db : Database)
    → Accounts.get account_id (Accounts.set_state account_id state error db)
      ≡ Option.map (set_row_state state error) (Accounts.get account_id db)
unfolding Accounts.get Accounts.set_state set_row_state
get-set_state account_id state error db =
    find-changed (λ row. row.id == account_id) (set_row_state state error) db.accounts (λ row. refl)

set_identity : User → AccountRow → AccountRow
set_identity me row = record row {
  telegram_user_id = (identity_of me).telegram_user_id;
  username = (identity_of me).username;
  display_name = (identity_of me).display_name;
  status = AccountState.ready;
  last_error = none;
}

get-update_identity :
    (account_id : ℕ) (me : User) (db : Database)
    → Accounts.get account_id (
        Accounts.update_identity account_id
          (identity_of me).telegram_user_id
          (identity_of me).username
          (identity_of me).display_name
          db)
      ≡ Option.map (set_identity me) (Accounts.get account_id db)
unfolding Accounts.get Accounts.update_identity set_identity
get-update_identity account_id me db =
    find-changed (λ row. row.id == account_id) (set_identity me) db.accounts (λ row. refl)

client_for-found :
    {A : Type 0} (account_id : ℕ) (rest : Auth A) (db : Database) (row : AccountRow)
    → Accounts.get account_id db ≡ some row
    → client_for account_id (Result.returned tt) rest db ≡ rest db
unfolding client_for and_then
client_for-found account_id rest db row found = rw (client_for, found) refl

refresh-found :
    (account_id : ℕ) (client : Client) (me : User) (row : AccountRow) (db : Database)
    → Accounts.get account_id db ≡ some row
    → client.get_again ≡ Result.returned tt
    → client.get_me ≡ Result.returned (some me)
    → refresh_identity account_id client db ≡ read_identity account_id (some me) db
unfolding refresh_identity
refresh-found account_id client me row db found c d =
    rw (c, d)
      (client_for-found account_id (and_then (Result.returned (some me)) (read_identity account_id))
          db row found
        ∙ and_then-returned (some me) (read_identity account_id) db)

-- A connection of an authorised session leaves the account READY, with the identity that Telegram
-- reports, and its connection state CONNECTING.
pub connect_existing-row :
    (account_id : ℕ) (client : Client) (me : User) (row : AccountRow) (db : Database)
    → Accounts.get account_id db ≡ some row
    → client.get ≡ Result.returned tt
    → client.is_user_authorized ≡ Result.returned true
    → client.get_again ≡ Result.returned tt
    → client.get_me ≡ Result.returned (some me)
    → Accounts.get account_id (connect_existing account_id client db).0
      ≡ some (connected_row me row)
unfolding connect_existing connect_authorized with_identity or_error read_identity set_row_state
    set_identity split
connect_existing-row account_id client me row db found a b c d =
    let db1 : Database = Accounts.set_state account_id AccountState.connecting none db in
    let found1 : Accounts.get account_id db1
        ≡ some (set_row_state AccountState.connecting none row) =
      get-set_state account_id AccountState.connecting none db
      ∙ ap (Option.map (set_row_state AccountState.connecting none)) found in
    let whole : client_for account_id client.get
          (and_then client.is_user_authorized (connect_authorized account_id client)) db1
        ≡ connect_authorized account_id client true db1 =
      rw (a, b)
        (client_for-found account_id
            (and_then (Result.returned true) (connect_authorized account_id client)) db1
            (set_row_state AccountState.connecting none row) found1
          ∙ and_then-returned true (connect_authorized account_id client) db1) in
    ap (λ r. Accounts.get account_id (or_error account_id r).0) whole
    ∙ ap (λ r. Accounts.get account_id (or_error account_id (with_identity r)).0)
        (refresh-found account_id client me (set_row_state AccountState.connecting none row) db1
          found1 c d)
    ∙ get-update_identity account_id me db1
    ∙ ap (Option.map (set_identity me)) found1
