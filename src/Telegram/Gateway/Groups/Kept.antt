-- ===== src/Telegram/Gateway/Groups/Kept.antt =====
-- The peer of a group that src/tms/telegram/telethon_gateway.py resolves, in the cache of
-- src/tms/telegram/peer_cache.py.
use telegramv.Prelude.{
  ℕ, String, ◌≡◌, refl, ◌⊎◌, Bool, true, false, List, [], ◌∷◌, Option, none, some, Text, find,
  update_where, arith, Bool-cases, inl, inr, find-last, is_some,
}
use telegramv.Core.{Result}
use telegramv.Storage.{PeerRow}
use telegramv.Groups.{GroupContext}
use telegramv.Groups.References.{invite_hash}
use telegramv.Telegram.PeerCache.{
  has_key, get_memory, put_memory, get_memory-put_memory, persist_peer, persist_many, put_all,
  persist_all,
}
use telegramv.Telegram.Gateway.{Entity, group_context}
use telegramv.Telegram.Gateway.Groups.{
  Cache, group_peer, keep_peers, kept_group, behind_write, Invite, Answers, checked_invite,
  resolve_group, from_invite, from_entity, by_token,
}

-- A group that is returned has its peer in memory and in the database; an exception leaves the
-- database as it was, and the memory too, or with the group's peer put in it.
unfoldable pub IsKept : ℕ → Cache → Cache × Result GroupContext → Type 0
IsKept account_id before (after, Result.raised e) =
    (after.db ≡ before.db)
    × ((after.memory ≡ before.memory)
        ⊎ ((group : GroupContext) × (after.memory
              ≡ put_memory (group_peer account_id group) before.memory)))
IsKept account_id before (after, Result.returned group) =
    (get_memory account_id group.telegram_id after.memory ≡ some (group_peer account_id group))
    × (find (has_key account_id group.telegram_id) after.db.peer_cache
        ≡ some (group_peer account_id group))

-- A peer that is written over one with its key is found.
find-overwritten :
    (p : PeerRow → Bool) (peer : PeerRow) (rows : List PeerRow)
    → p peer ≡ true
    → is_some (find p rows) ≡ true
    → find p (update_where p (λ row. peer) rows) ≡ some peer
find-overwritten p peer [] own found = ground arith
find-overwritten p peer (row ∷ rows) own found = elim (Bool-cases (p row)) [
  | inl e ↦ rw (e, own) refl
  | inr e ↦ rw (e, e) (find-overwritten p peer rows own (rw e at found))
]

is_some-none : {A : Type 0} (found : Option A) → is_some found ≡ false → found ≡ none
is_some-none none h = refl
is_some-none (some x) h = ground arith

find-persist_peer :
    (peer : PeerRow) (rows : List PeerRow)
    → has_key peer.account_id peer.peer_id peer ≡ true
    → find (has_key peer.account_id peer.peer_id) (persist_peer peer rows) ≡ some peer
unfolding persist_peer
find-persist_peer peer rows own =
    elim (Bool-cases (is_some (find (has_key peer.account_id peer.peer_id) rows))) [
      | inl e ↦ rw e (find-overwritten (has_key peer.account_id peer.peer_id) peer rows own e)
      | inr e ↦
          rw e (find-last (has_key peer.account_id peer.peer_id) rows peer (is_some-none _ e) own)
    ]

own_key :
    (account_id : ℕ) (group : GroupContext)
    → has_key account_id group.telegram_id (group_peer account_id group) ≡ true
unfolding group_peer
own_key account_id group = ground arith

get_memory-group_peer :
    (account_id : ℕ) (group : GroupContext) (memory : List PeerRow)
    → get_memory account_id group.telegram_id (put_memory (group_peer account_id group) memory)
      ≡ some (group_peer account_id group)
get_memory-group_peer account_id group memory =
    rw
      (
        get_memory-put_memory (group_peer account_id group) account_id group.telegram_id memory,
        own_key account_id group,
      )
      refl

kept_group-IsKept :
    (write : Result Unit) (account_id : ℕ) (is_member_override : Option Bool) (entity : Entity)
    (cache : Cache)
    → IsKept account_id cache (kept_group write account_id is_member_override entity cache)
unfolding IsKept kept_group keep_peers behind_write persist_many put_all persist_all group_peer
kept_group-IsKept (Result.raised e) account_id is_member_override entity cache =
    (refl, inr (group_context is_member_override entity, refl))
kept_group-IsKept (Result.returned _) account_id is_member_override entity cache =
    let group = group_context is_member_override entity in
    (
      get_memory-group_peer account_id group cache.memory,
      find-persist_peer (group_peer account_id group) cache.db.peer_cache
          (own_key account_id group),
    )

checked_invite-IsKept :
    (write : Result Unit) (account_id : ℕ) (title : Option String) (chat : Option Entity)
    (cache : Cache)
    → IsKept account_id cache (checked_invite write account_id title chat cache)
unfolding checked_invite IsKept
checked_invite-IsKept write account_id title none cache = (refl, inl refl)
checked_invite-IsKept write account_id title (some entity) cache =
    kept_group-IsKept write account_id (some true) entity cache

from_invite-IsKept :
    (write : Result Unit) (account_id : ℕ) (answer : Result Invite) (cache : Cache)
    → IsKept account_id cache (from_invite write account_id answer cache)
unfolding from_invite IsKept
from_invite-IsKept write account_id (Result.raised e) cache = (refl, inl refl)
from_invite-IsKept write account_id (Result.returned invite) cache =
    checked_invite-IsKept write account_id invite.title invite.chat cache

from_entity-IsKept :
    (write : Result Unit) (account_id : ℕ) (answer : Result Entity) (cache : Cache)
    → IsKept account_id cache (from_entity write account_id answer cache)
unfolding from_entity IsKept
from_entity-IsKept write account_id (Result.raised e) cache = (refl, inl refl)
from_entity-IsKept write account_id (Result.returned entity) cache =
    kept_group-IsKept write account_id none entity cache

by_token-IsKept :
    (answers : Answers) (account_id : ℕ) (reference : Text) (token : Option Text) (cache : Cache)
    → IsKept account_id cache (by_token answers account_id reference token cache)
unfolding by_token
by_token-IsKept answers account_id reference (some token) cache =
    from_invite-IsKept answers.write account_id (answers.check_invite token) cache
by_token-IsKept answers account_id reference none cache =
    from_entity-IsKept answers.write account_id (answers.get_entity reference) cache

-- A group that is resolved has its peer in memory and in the database, under its account and id and
-- with the group's type, access hash, name and title; where resolving it raises an exception, that of
-- the write included, the database is as it was, and the memory is too, or has a group's peer put in
-- it for the account.
pub resolve_group-IsKept :
    (answers : Answers) (account_id : ℕ) (reference : Text) (cache : Cache)
    → IsKept account_id cache (resolve_group answers account_id reference cache)
unfolding resolve_group
resolve_group-IsKept answers account_id reference cache =
    by_token-IsKept answers account_id reference (invite_hash reference) cache
