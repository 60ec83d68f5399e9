-- ===== src/Telegram/ErrorMapper/Policy.antt =====
-- The mapper and the classifier together: what the executor does about an exception.
use telegramv.Prelude.{
  lower, codes, Text, ◌≡◌, Bool, not, ◌&&◌, ◌||◌, arith, ltb, leb, or_else, if◌then◌else◌,
  Bool-cases, inl, inr, some,
}
use telegramv.Migration.Classifier.{classify}
use telegramv.Telegram.ErrorMapper.{
  RpcException, map_error, is_flood, wait_of, named_code, any_in, privacy_names, already_names,
  not_eligible_names, permission_names, auth_names, invalid_names, server_names,
}

-- The class name asks for the candidate to be skipped, before the permission is looked at.
abbrev pub skips_first : Text → Bool
skips_first name =
    any_in privacy_names name || any_in already_names name || any_in not_eligible_names name

abbrev pub blocks : Text → Bool
blocks name = any_in permission_names name || any_in auth_names name

abbrev pub name_of : RpcException → Text
name_of exc = lower (codes exc.type_name)

-- An exception is retried exactly if it is a flood with a positive wait, or no class name but a
-- server failure's fits it and it is a network failure or a server failure. It pauses the job
-- exactly if it is a flood without a positive wait, or, where no flood and no skipping name comes
-- first, its name says that the permission or the session is missing.
pub policy :
    (exc : RpcException)
    → ((classify (some (map_error exc))).retry ≡ (
        if is_flood exc
        then ltb 0 (or_else (wait_of exc) 0)
        else not (
            skips_first (name_of exc) || blocks (name_of exc) || any_in invalid_names (name_of exc))
          && (exc.is_os_error || any_in server_names (name_of exc))))
      × ((classify (some (map_error exc))).pause_job ≡ (
          if is_flood exc
          then leb (or_else (wait_of exc) 0) 0
          else not (skips_first (name_of exc)) && blocks (name_of exc)))
unfolding map_error classify named_code
policy exc = elim (Bool-cases (is_flood exc)) [
  | inl e ↦ rw e (ground arith)
  | inr e ↦ rw e (ground arith)
]
