-- ===== src/Telegram/ErrorMapper/Precedence.antt =====
-- What decides the code of a mapped error.
use telegramv.Prelude.{
  lower, codes, ◌<◌, Text, ◌≡◌, ◌≢◌, ◌↔◌, Bool, true, none, some, arith, ltb, or_else,
  if◌then◌else◌, Bool-cases, inl, inr,
}
use telegramv.Core.{InviteResultCode}
use telegramv.Telegram.ErrorMapper.{RpcException, map_error, is_flood, wait_of, named_code}

named_code-ne_rate_limit :
    (name : Text) (os : Bool) → named_code name os ≢ InviteResultCode.rate_limit
unfolding named_code
named_code-ne_rate_limit name os = ground arith

named_code-ne_indefinite :
    (name : Text) (os : Bool) → named_code name os ≢ InviteResultCode.rate_limit_indefinite
unfolding named_code
named_code-ne_indefinite name os = ground arith

-- A flood is mapped to a rate limit with its exact wait if it has a positive one, and to an
-- indefinite one with no wait otherwise; nothing else is mapped to either of the two codes.
pub rate_limit_exact :
    (exc : RpcException)
    → ((map_error exc).code ≡ InviteResultCode.rate_limit
        ↔ ((is_flood exc ≡ true) × (0 < or_else (wait_of exc) 0)))
      × ((map_error exc).code ≡ InviteResultCode.rate_limit_indefinite
          ↔ ((is_flood exc ≡ true) × (or_else (wait_of exc) 0 ≡ 0)))
      × ((map_error exc).wait_seconds ≡ (
          if is_flood exc
          then (if ltb 0 (or_else (wait_of exc) 0) then some (or_else (wait_of exc) 0) else none)
          else none))
unfolding map_error
rate_limit_exact exc =
    let name = lower (codes exc.type_name) in
    let a = named_code-ne_rate_limit name exc.is_os_error in
    let b = named_code-ne_indefinite name exc.is_os_error in
    elim (Bool-cases (is_flood exc)) [
      | inl e ↦ rw e (ground arith)
      | inr e ↦ rw e (ground (arith, a, b))
    ]
