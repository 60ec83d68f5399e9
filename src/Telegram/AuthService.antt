-- ===== src/Telegram/AuthService.antt =====
-- src/tms/telegram/auth_service.py. What the Telethon client answers is an argument; an operation
-- is a function of the database, which it changes whether it returns or raises.
pub mod Connection
use telegramv.Prelude.{
  ℕ, Bool, true, false, ◌||◌, List, [], ◌∷◌, Option, none, some, String, string_append, str_eq,
  codes, lower, occurs, strip_string, if◌then◌else◌, or_else, is_some,
}
use telegramv.Core.{AccountState, Failure, Result, failure}
use telegramv.Storage.{Database}
use telegramv.Accounts

pub record AuthIdentity : Type 0 where
  pub telegram_user_id : Option ℕ
  pub username : Option String
  pub display_name : Option String

-- What `get_me` knows of the user.
pub record User : Type 0 where
  pub id : Option ℕ
  pub username : Option String
  pub first_name : Option String
  pub last_name : Option String

-- The calls of the client manager and of the client. The manager is asked once at the start, and
-- again when the identity is read.
pub record Client : Type 0 where
  pub get : Result Unit
  pub get_again : Result Unit
  pub is_user_authorized : Result Bool
  pub send_code_request : Result String
  pub sign_in : Result Unit
  pub sign_in_password : String → Result Unit
  pub get_me : Result (Option User)

abbrev pub Auth : Type 0 → Type 0
Auth A = Database → Database × Result A

unfoldable pub and_then : {A B : Type 0} → Result A → (A → Auth B) → Auth B
and_then (Result.returned a) f db = f a db
and_then (Result.raised e) f db = (db, Result.raised e)

-- `session_lookup` of the bootstrap, with the client that is made for the session.
unfoldable pub client_for : {A : Type 0} → ℕ → Result Unit → Auth A → Auth A
unfolding and_then
client_for account_id answer rest db = elim (Accounts.get account_id db) [
  | none ↦ (db, Result.raised (failure "KeyError" "Unknown account id"))
  | some account ↦ and_then answer (λ _. rest) db
]

-- `" ".join(part for part in (first, last) if part).strip() or None`
unfoldable pub display_name : Option String → Option String → Option String
display_name first_name last_name =
    let first = or_else first_name "" in
    let last = or_else last_name "" in
    let joined =
      if str_eq first ""
      then last
      else if str_eq last ""
      then first
      else string_append first (string_append " " last) in
    let stripped = strip_string joined in if str_eq stripped "" then none else some stripped

unfoldable pub identity_of : User → AuthIdentity
unfolding display_name
identity_of me = record {
  telegram_user_id = me.id;
  username = me.username;
  display_name = display_name me.first_name me.last_name;
}

read_identity : ℕ → Option User → Auth AuthIdentity
unfolding identity_of
read_identity account_id none db =
    (db, Result.raised (failure "RuntimeError" "Telegram session has no authenticated user"))
read_identity account_id (some me) db =
    let identity = identity_of me in
    (
      Accounts.update_identity account_id identity.telegram_user_id identity.username
          identity.display_name db,
      Result.returned identity,
    )

unfoldable pub refresh_identity : ℕ → Client → Auth AuthIdentity
unfolding client_for and_then read_identity
refresh_identity account_id client =
    client_for account_id client.get_again (and_then client.get_me (read_identity account_id))

-- `except Exception as exc`: the account's state is ERROR and the exception goes on.
unfoldable pub or_error : {A : Type 0} → ℕ → Database × Result A → Database × Result A
or_error account_id (db, Result.returned a) = (db, Result.returned a)
or_error account_id (db, Result.raised e) =
    (Accounts.set_state account_id AccountState.error (some e.text) db, Result.raised e)

with_identity : Database × Result AuthIdentity → Database × Result (Option AuthIdentity)
with_identity (db, Result.returned identity) = (db, Result.returned (some identity))
with_identity (db, Result.raised e) = (db, Result.raised e)

connect_authorized : ℕ → Client → Bool → Auth (Option AuthIdentity)
unfolding refresh_identity with_identity
connect_authorized account_id client false db =
    (Accounts.set_state account_id AccountState.auth_required none db, Result.returned none)
connect_authorized account_id client true db = with_identity (refresh_identity account_id client db)

unfoldable pub connect_existing : ℕ → Client → Auth (Option AuthIdentity)
unfolding client_for and_then or_error connect_authorized
connect_existing account_id client db = or_error account_id (
    client_for account_id client.get
      (and_then client.is_user_authorized (connect_authorized account_id client))
      (Accounts.set_state account_id AccountState.connecting none db))

-- The hash of the code, or none where the session is authorised already.
request_code : ℕ → Client → Bool → Auth (Option String)
unfolding refresh_identity
request_code account_id client true db =
    let (db', result) = refresh_identity account_id client db in
    elim result [
      | Result.returned identity ↦ (db', Result.returned none)
      | Result.raised e ↦ (db', Result.raised e)
    ]
request_code account_id client false db = elim client.send_code_request [
  | Result.returned hash ↦ (db, Result.returned (some hash))
  | Result.raised e ↦ (db, Result.raised e)
]

-- Where a code was sent, the account waits for it.
code_sent : ℕ → Database × Result (Option String) → Database × Result String
code_sent account_id (db, Result.raised e) = (db, Result.raised e)
code_sent account_id (db, Result.returned none) = (db, Result.returned "")
code_sent account_id (db, Result.returned (some hash)) =
    (Accounts.set_state account_id AccountState.auth_required none db, Result.returned hash)

unfoldable pub send_code : ℕ → Client → Auth String
unfolding client_for and_then or_error request_code code_sent
send_code account_id client db = code_sent account_id (
    or_error account_id (
      client_for account_id client.get
        (and_then client.is_user_authorized (request_code account_id client))
        (Accounts.set_state account_id AccountState.connecting none db)))

abbrev password_required : String
password_required = "Telegram 2FA password is required"

-- The second factor.
sign_in_password : ℕ → Client → Option String → Auth Unit
sign_in_password account_id client password db =
    let given = or_else password "" in
    if str_eq given ""
    then (
      Accounts.set_state account_id AccountState.auth_required (some password_required) db,
      Result.raised (failure "RuntimeError" password_required),
    )
    else elim (client.sign_in_password given) [
      | Result.returned u ↦ (db, Result.returned u)
      | Result.raised e ↦ (
        Accounts.set_state account_id AccountState.auth_required (some e.text) db,
        Result.raised e,
      )
    ]

names : String → Failure → Bool
names token e = occurs (codes token) (lower (codes e.type_name))

unfoldable pub sign_in_state : Failure → AccountState
unfolding names
sign_in_state e =
    if names "phonecode" e || names "password" e || names "auth" e
    then AccountState.auth_required
    else AccountState.error

-- What follows the first `client.sign_in`.
signed_in : ℕ → Client → Option String → Result Unit → Auth Unit
unfolding names sign_in_password sign_in_state
signed_in account_id client password (Result.returned u) db = (db, Result.returned u)
signed_in account_id client password (Result.raised e) db =
    if names "sessionpasswordneeded" e
    then sign_in_password account_id client password db
    else (Accounts.set_state account_id (sign_in_state e) (some e.text) db, Result.raised e)

unfoldable pub sign_in : ℕ → Client → Option String → Auth AuthIdentity
unfolding client_for and_then signed_in refresh_identity
sign_in account_id client password db =
    let (db', result) =
      client_for account_id client.get (signed_in account_id client password client.sign_in) db in
    elim result [
      | Result.returned u ↦ refresh_identity account_id client db'
      | Result.raised e ↦ (db', Result.raised e)
    ]
