-- ===== src/Runtime/App/Accounts.antt =====
-- The commands on settings and accounts of src/tms/runtime/command_handlers.py, with
-- src/tms/accounts/service.py. What src/tms/telegram/auth_service.py answers is an argument of the
-- task's end.
use telegramv.Prelude.{
  ℕ, Bool, true, false, not, ◌&&◌, ◌||◌, [], ◌∷◌, Option, none, some, String, Text, codes, str_eq,
  strip_string, ◌==◌, leb, if◌then◌else◌, or_else, select, is_some, length,
}
use telegramv.Core.{AccountState, Failure, Result, failure}
use telegramv.Storage.{Database}
use telegramv.Accounts as AccountRepository
use telegramv.Jobs.{has_nonterminal_jobs}
use telegramv.Telegram.AuthService.{AuthIdentity}
use telegramv.Runtime.Commands.{Answer, require, refuse_if}
use telegramv.Runtime.StateStore.{
  Change, set_phone_code_hash, get_phone_code_hash, pop_phone_code_hash,
}
use telegramv.Runtime.App.{
  App, Task, Value, publish, submit, update_state, done, transact, with_db, enabled_account,
}

unfoldable pub update_settings : ℕ → String → App → Answer App
unfolding submit
update_settings api_id api_hash app =
    refuse_if (api_id == 0 || str_eq (strip_string api_hash) "") "API ID and API Hash are required"
      (Answer.accepted (submit (Task.apply_credentials api_id (strip_string api_hash)) app))

-- `credentials_applied`, once every client is closed
unfoldable pub credentials_applied : ℕ → String → Result Unit → App → App
unfolding done submit
credentials_applied api_id api_hash result app =
    done "settings.update"
      (λ _ app'. submit (Task.save_settings api_id api_hash) (record app' {
        clients = [];
        credentials = record { api_id = api_id; api_hash = api_hash };
      }))
      result app

unfoldable pub settings_saved : ℕ → String → Result Unit → App → App
unfolding done publish
settings_saved api_id api_hash result app =
    done "settings.update"
      (λ _ app'.
        publish "SettingsChanged" []
          (record app' { settings = record { api_id = api_id; api_hash = api_hash } }))
      result app

abbrev is_digit : ℕ → Bool
is_digit c = leb b'0' c && leb c b'9'

all_digits : Text → Bool
all_digits [] = true
all_digits (c ∷ cs) = is_digit c && all_digits cs

drop_plus : Text → Text
drop_plus [] = []
drop_plus (c ∷ cs) = if c == b'+' then cs else c ∷ cs

-- `re.fullmatch(r'\+?\d{7,16}', clean)` of ASCII text
unfoldable pub is_phone : String → Bool
unfolding all_digits drop_plus
is_phone clean =
    let digits = drop_plus (codes clean) in
    all_digits digits && leb 7 (length digits) && leb (length digits) 16

-- `AccountService.add`; the path of the session is that of its digits in the sessions' directory,
-- which is an argument.
unfoldable pub add_phone : (Text → String) → String → Database → Result (Database × ℕ)
unfolding is_phone
add_phone session_path phone db =
    let clean = strip_string phone in
    if is_phone clean
    then elim (AccountRepository.create clean (session_path (select is_digit (codes clean))) db) [
      | none ↦ Result.raised (failure "IntegrityError" "UNIQUE constraint failed: accounts.phone")
      | some created ↦ Result.returned created
    ]
    else Result.raised (failure "ValueError" "Invalid phone number")

accounts_changed : ℕ → App → App
unfolding publish
accounts_changed account_id app =
    publish "AccountsChanged" (("account_id", Value.number account_id) ∷ []) app

unfoldable pub add_account : String → App → App
unfolding submit
add_account phone app = submit (Task.add_account phone) app

unfoldable pub account_added : (Text → String) → String → App → App
unfolding done with_db add_phone accounts_changed
account_added session_path phone app =
    done "account.add" (λ created app'. accounts_changed created.1 (with_db created.0 app'))
      (add_phone session_path phone app.session.db) app

-- BUSY, WAITING_SERVER and CONNECTING
unfoldable pub is_engaged : AccountState → Bool
is_engaged AccountState.busy = true
is_engaged AccountState.waiting_server = true
is_engaged AccountState.connecting = true
is_engaged _ = false

unfoldable pub enable_account : ℕ → Bool → App → Answer App
unfolding submit is_engaged
enable_account account_id enabled app =
    let submitted = Answer.accepted (submit (Task.enable_account account_id enabled) app) in
    if enabled
    then submitted
    else require (AccountRepository.get account_id app.session.db) "Account not found" (λ account.
      refuse_if (is_engaged account.status || has_nonterminal_jobs account_id app.session.db)
        "Stop/pause active Telegram work before disabling this account" submitted)

unfoldable pub account_enabled : ℕ → Bool → Option Failure → App → App
unfolding transact accounts_changed
account_enabled account_id enabled fault app =
    transact "account.enable" (λ _ app'. accounts_changed account_id app') fault
      (λ db. (AccountRepository.enable account_id enabled db, tt)) app

unfoldable pub delete_account : ℕ → App → Answer App
unfolding submit
delete_account account_id app =
    require (AccountRepository.get account_id app.session.db) "Account not found" (λ account.
      refuse_if (has_nonterminal_jobs account_id app.session.db)
        "Account has non-terminal jobs. Complete/cancel those jobs before deletion."
        (Answer.accepted (submit (Task.disconnect_account account_id) app)))

-- `after_disconnect`
unfoldable pub account_disconnected : ℕ → Result Unit → App → App
unfolding done submit
account_disconnected account_id result app =
    done "account.delete"
      (λ _ app'.
        submit (Task.delete_account account_id)
          (record app' { clients = select (λ id. not (id == account_id)) app'.clients }))
      result app

-- `AccountService.delete`; the session's files are removed by the way.
unfoldable pub account_deleted : ℕ → App → App
unfolding done with_db accounts_changed
account_deleted account_id app =
    done "account.delete" (λ db app'. accounts_changed account_id (with_db db app'))
      (elim (AccountRepository.delete account_id app.session.db) [
        | none ↦ Result.raised (failure "RuntimeError" "Account has non-terminal jobs")
        | some db ↦ Result.returned db
      ])
      app

unfoldable pub select_account : ℕ → App → App
unfolding publish update_state
select_account account_id app =
    publish "ActiveAccountChanged" (("account_id", Value.number account_id) ∷ [])
      (update_state (Change.active_account_id (some account_id) ∷ []) app)

unfoldable pub connect_account : ℕ → App → Answer App
unfolding submit enabled_account
connect_account account_id app =
    enabled_account account_id app
      (λ _. Answer.accepted (submit (Task.connect_account account_id) app))

unfoldable pub account_connected : ℕ → Result (Option AuthIdentity) → App → App
unfolding done publish
account_connected account_id result app =
    done "account.connect"
      (λ identity app'.
        publish "AccountConnected"
          (("account_id", Value.number account_id)
            ∷ ("authorized", Value.flag (is_some identity))
            ∷ ("identity", Value.identity identity)
            ∷ [])
          app')
      result app

unfoldable pub send_code : ℕ → App → Answer App
unfolding submit enabled_account
send_code account_id app =
    enabled_account account_id app
      (λ account. Answer.accepted (submit (Task.send_code account_id account.phone) app))

unfoldable pub code_sent : ℕ → Result String → App → App
unfolding done publish
code_sent account_id result app =
    done "auth.send_code"
      (λ code_hash app'.
        let kept =
          if str_eq code_hash ""
          then app'
          else record app' { state = set_phone_code_hash account_id code_hash app'.state } in
        publish "AuthCodeSent"
          (("account_id", Value.number account_id)
            ∷ ("already_authorized", Value.flag (str_eq code_hash ""))
            ∷ [])
          kept)
      result app

unfoldable pub sign_in : ℕ → String → Option String → App → Answer App
unfolding submit enabled_account
sign_in account_id code password app = enabled_account account_id app (λ account.
    let code_hash = or_else (get_phone_code_hash account_id app.state) "" in
    refuse_if (str_eq code_hash "") "Request OTP before signing in" (
      Answer.accepted (submit (Task.sign_in account_id account.phone code code_hash password) app)))

unfoldable pub signed_in : ℕ → Result AuthIdentity → App → App
unfolding done publish
signed_in account_id result app =
    done "auth.sign_in"
      (λ identity app'.
        publish "AccountAuthenticated"
          (("account_id", Value.number account_id)
            ∷ ("identity", Value.identity (some identity))
            ∷ [])
          (record app' { state = (pop_phone_code_hash account_id app'.state).0 }))
      result app
