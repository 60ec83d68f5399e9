-- ===== src/Telegram/ErrorMapper.antt =====
-- src/tms/telegram/error_mapper.py. An exception is what the mapper reads of it: the name of its
-- class, its text, the attributes `seconds` and `value`, and whether it is a ConnectionError, a
-- TimeoutError or an OSError. Class names and the searched phrases are ASCII, so `lower` is the
-- ASCII one. A wait of at most 0, negative ones included, is 0.
pub mod Precedence
pub mod Policy
use telegramv.Prelude.{
  ℕ, String, Text, codes, lower, occurs, Bool, true, false, ◌&&◌, ◌||◌, List, [], ◌∷◌, map, Option,
  none, some, leb, ltb, ◌==◌, if◌then◌else◌, or_else,
}
use telegramv.Core.{InviteResultCode, DomainError}

pub record RpcException : Type 0 where
  pub type_name : String
  pub text : String
  pub seconds : Option ℕ
  pub value : Option ℕ
  pub is_os_error : Bool

-- `any(t in name for t in names)`
unfoldable pub any_in : List String → Text → Bool
unfolding occurs
any_in [] name = false
any_in (t ∷ ts) name = occurs (codes t) name || any_in ts name

abbrev pub rate_limit_names : List String
rate_limit_names = "floodwait" ∷ "floodpremiumwait" ∷ "slowmodewait" ∷ "peerflood" ∷ "flood" ∷ []

abbrev pub privacy_names : List String
privacy_names = "userprivacyrestricted" ∷ "privacy" ∷ []

abbrev pub already_names : List String
already_names = "useralreadyparticipant" ∷ "already" ∷ []

abbrev pub not_eligible_names : List String
not_eligible_names =
    "usernotmutualcontact" ∷ "userchannelsmuch" ∷ "userchannelstoomuch" ∷ "botgroupsblocked"
    ∷ "botsmuch" ∷ "botstoomuch" ∷ "userkicked" ∷ []

abbrev pub invalid_names : List String
invalid_names =
    "useridinvalid" ∷ "inputuserdeactivated" ∷ "userdeactivated" ∷ "peeridinvalid" ∷ "invalid" ∷ []

abbrev pub permission_names : List String
permission_names =
    "chatadminrequired" ∷ "adminrequired" ∷ "chatwriteforbidden" ∷ "userbannedinchannel"
    ∷ "forbidden" ∷ []

abbrev pub auth_names : List String
auth_names =
    "authkeyunregistered" ∷ "authkeyduplicated" ∷ "sessionrevoked" ∷ "sessionexpired"
    ∷ "unauthorized" ∷ "sessionpassword" ∷ "auth" ∷ []

abbrev pub server_names : List String
server_names = "servererror" ∷ "rpcmcgetfail" ∷ "timedout" ∷ []

-- `seconds`, and `value` where that is None.
unfoldable pub wait_of : RpcException → Option ℕ
wait_of exc = elim exc.seconds [ none ↦ exc.value | some n ↦ some n ]

-- The test of the first branch.
unfoldable pub is_flood : RpcException → Bool
unfolding any_in occurs
is_flood exc =
    any_in rate_limit_names (lower (codes exc.type_name))
    || occurs (codes "flood_wait") (lower (codes exc.text))
    || occurs (codes "too many requests") (lower (codes exc.text))

error : InviteResultCode → String → DomainError
error code text = record { code = code; text = text; wait_seconds = none }

rate_limited : Option ℕ → String → DomainError
unfolding error
rate_limited wait text =
    if leb (or_else wait 0) 0 then error InviteResultCode.rate_limit_indefinite text else record {
      code = InviteResultCode.rate_limit;
      text = text;
      wait_seconds = some (or_else wait 0);
    }

-- The branches behind the first, in the order of the source.
named_code : Text → Bool → InviteResultCode
named_code name is_os_error =
    if any_in privacy_names name
    then InviteResultCode.privacy
    else if any_in already_names name
    then InviteResultCode.already_member
    else if any_in not_eligible_names name
    then InviteResultCode.not_eligible
    else if any_in permission_names name
    then InviteResultCode.permission
    else if any_in auth_names name
    then InviteResultCode.auth
    else if any_in invalid_names name
    then InviteResultCode.invalid_user
    else if is_os_error
    then InviteResultCode.network_transient
    else if any_in server_names name
    then InviteResultCode.server_transient
    else InviteResultCode.unknown

unfoldable pub map_error : RpcException → DomainError
unfolding rate_limited error named_code
map_error exc =
    if is_flood exc
    then rate_limited (wait_of exc) exc.text
    else error (named_code (lower (codes exc.type_name)) exc.is_os_error) exc.text
