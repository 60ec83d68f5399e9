-- ===== src/Tests/Telegram.antt =====
-- The mapper at a flood wait, the peer cache, and groups behind invites.
use telegramv.Prelude.{
  false, codes, refl, ◌++◌, [], ◌∷◌, ◌≡◌, ◌↔◌, ◌<◌, true, some, none, or_else, ltb, leb,
  if◌then◌else◌, not, ◌&&◌, ◌||◌,
}
use telegramv.Core.{InviteResultCode, Result, failure}
use telegramv.Telegram.Gateway.{Entity}
use telegramv.Telegram.Gateway.Groups.{Cache, Answers, resolve_group}
use telegramv.Telegram.Gateway.Groups.Kept.{IsKept, resolve_group-IsKept}
use telegramv.Migration.Classifier.{classify}
use telegramv.Telegram.ErrorMapper.{
  map_error, is_flood, wait_of, any_in, invalid_names, server_names,
}
use telegramv.Telegram.ErrorMapper.Precedence.{rate_limit_exact}
use telegramv.Telegram.ErrorMapper.Policy.{policy, skips_first, blocks, name_of}
use telegramv.Groups.References.{invite_hash, is_token}
use telegramv.Groups.References.Links.{every, invite_hash_link}
use telegramv.Tests.Fixtures.{flood, peer, source}

rate_limit_exact_example :
    ((map_error flood).code ≡ InviteResultCode.rate_limit
      ↔ ((is_flood flood ≡ true) × (0 < or_else (wait_of flood) 0)))
    × ((map_error flood).code ≡ InviteResultCode.rate_limit_indefinite
        ↔ ((is_flood flood ≡ true) × (or_else (wait_of flood) 0 ≡ 0)))
    × ((map_error flood).wait_seconds ≡ (
        if is_flood flood
        then (if ltb 0 (or_else (wait_of flood) 0) then some (or_else (wait_of flood) 0) else none)
        else none))
rate_limit_exact_example = rate_limit_exact flood

policy_example :
    ((classify (some (map_error flood))).retry ≡ (
      if is_flood flood
      then ltb 0 (or_else (wait_of flood) 0)
      else not (
          skips_first (name_of flood)
          || blocks (name_of flood)
          || any_in invalid_names (name_of flood))
        && (flood.is_os_error || any_in server_names (name_of flood))))
    × ((classify (some (map_error flood))).pause_job ≡ (
        if is_flood flood
        then leb (or_else (wait_of flood) 0) 0
        else not (skips_first (name_of flood)) && blocks (name_of flood)))
policy_example = policy flood

-- A private invite that shows its chat, and a client that refuses everything else.
abbrev entity : Entity
entity = record {
  id = 500;
  entity_type = "Channel";
  creator = false;
  left = false;
  broadcast = false;
  username = none;
  access_hash = none;
  title = some "Group";
  first_name = none;
  admin_rights = none;
  default_banned = none;
}

abbrev answers : Answers
answers = record {
  check_invite = λ token. Result.returned (record { chat = some entity; title = none });
  import_invite = λ token. Result.returned [];
  get_entity = λ name. Result.raised (failure "ValueError" "unknown");
  join_channel = Result.raised (failure "ChannelPrivateError" "private");
  write = Result.returned tt;
}

abbrev cache : Cache
cache = record { memory = peer 100 ∷ []; db = record source { peer_cache = peer 500 ∷ [] } }

resolve_group-IsKept_example :
    IsKept 1 cache (resolve_group answers 1 (codes "https://t.me/+Ab-1") cache)
resolve_group-IsKept_example = resolve_group-IsKept answers 1 (codes "https://t.me/+Ab-1") cache

invite_hash_link_example :
    (invite_hash (codes "https://t.me/+" ++ b'A' ∷ codes "b-1_") ≡ some (b'A' ∷ codes "b-1_"))
    × (invite_hash (codes "https://t.me/joinchat/" ++ b'A' ∷ codes "b-1_")
        ≡ some (b'A' ∷ codes "b-1_"))
unfolding every is_token
invite_hash_link_example = invite_hash_link b'A' (codes "b-1_") refl
