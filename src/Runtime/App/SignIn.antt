-- ===== src/Runtime/App/SignIn.antt =====
-- The code of a sign-in in src/tms/runtime/command_handlers.py.
use telegramv.Prelude.{ℕ, String, str_eq, Option, some, true, false, ◌==◌, ==_iff, ◌≡◌, refl}
use telegramv.Prelude.Maps.{lookup-assign-same, lookup-remove-same}
use telegramv.Core.{Result}
use telegramv.Storage.{AccountRow}
use telegramv.Accounts as AccountRepository
use telegramv.Telegram.AuthService.{AuthIdentity}
use telegramv.Runtime.Commands.{Answer}
use telegramv.Runtime.StateStore.{set_phone_code_hash, get_phone_code_hash, pop_phone_code_hash}
use telegramv.Runtime.App.{App, Task, submit, publish, done, enabled_account}
use telegramv.Runtime.App.Accounts.{code_sent, sign_in, signed_in}

-- A code that was sent to an enabled account is the one that its sign-in is submitted with, and after
-- the sign-in another one is refused until a code is sent again.
pub sign_in_once :
    (account_id : ℕ) (code_hash code : String) (password : Option String) (identity : AuthIdentity)
    (account : AccountRow) (app : App)
    → AccountRepository.get account_id app.session.db ≡ some account
    → account.enabled ≡ true
    → str_eq code_hash "" ≡ false
    → (sign_in account_id code password (code_sent account_id (Result.returned code_hash) app)
        ≡ Answer.accepted (
            submit
              (Task.sign_in account_id account.phone code code_hash password)
              (code_sent account_id (Result.returned code_hash) app)))
      × (sign_in account_id code password (signed_in account_id (Result.returned identity) app)
          ≡ Answer.refused "Request OTP before signing in")
unfolding sign_in enabled_account code_sent signed_in done publish get_phone_code_hash
    set_phone_code_hash pop_phone_code_hash
sign_in_once account_id code_hash code password identity account app got enabled given =
    let same : (account_id == account_id) ≡ true = (==_iff account_id account_id).1 refl in
    (
      rw
          (
            given,
            got,
            enabled,
            lookup-assign-same (λ a b. a == b) account_id code_hash app.state.phone_code_hashes
                same,
            given,
          )
          refl,
      rw (got, enabled, lookup-remove-same (λ a b. a == b) account_id app.state.phone_code_hashes)
          refl,
    )
