-- ===== src/Migration/Classifier.antt =====
-- src/tms/migration/result_classifier.py
use telegramv.Prelude.{ℕ, Bool, true, false, Option, none, some}
use telegramv.Core.{InviteResultCode, MigrationItemState, DomainError}

pub record ClassifiedResult : Type 0 where
  pub state : MigrationItemState
  pub retry : Bool
  pub pause_job : Bool
  pub wait_seconds : Option ℕ

-- `ClassifiedResult(state)` with the defaults of the other fields.
abbrev plain : MigrationItemState → ClassifiedResult
plain state = record { state = state; retry = false; pause_job = false; wait_seconds = none }

classify_code : InviteResultCode → Option ℕ → ClassifiedResult
classify_code InviteResultCode.already_member w = plain MigrationItemState.skipped
classify_code InviteResultCode.privacy w = plain MigrationItemState.skipped
classify_code InviteResultCode.not_eligible w = plain MigrationItemState.skipped
classify_code InviteResultCode.invalid_user w = plain MigrationItemState.skipped
classify_code InviteResultCode.permission w = record (plain MigrationItemState.failed) {
  pause_job = true;
}
classify_code InviteResultCode.auth w = record (plain MigrationItemState.failed) {
  pause_job = true;
}
classify_code InviteResultCode.rate_limit_indefinite w = record (plain MigrationItemState.failed) {
  pause_job = true;
}
classify_code InviteResultCode.rate_limit w = record (plain MigrationItemState.retry) {
  retry = true;
  wait_seconds = w;
}
classify_code InviteResultCode.network_transient w = record (plain MigrationItemState.retry) {
  retry = true;
}
classify_code InviteResultCode.server_transient w = record (plain MigrationItemState.retry) {
  retry = true;
}
classify_code InviteResultCode.unknown w = plain MigrationItemState.failed

unfoldable pub classify : Option DomainError → ClassifiedResult
unfolding classify_code
classify none = plain MigrationItemState.success
classify (some error) = classify_code error.code error.wait_seconds
