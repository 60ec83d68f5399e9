-- ===== src/Telegram/Gateway/Groups.antt =====
-- The groups of src/tms/telegram/telethon_gateway.py: resolving, listing, joining and leaving them.
-- What Telegram answers to each request is an argument.
pub mod Kept
use telegramv.Prelude.{
  ℕ, ℤ, Bool, true, ◌||◌, List, [], ◌∷◌, Option, none, some, String, string_append, Text, codes,
  if◌then◌else◌, map, str_eq,
}
use mathlib.Core.Option
use telegramv.Core.{Result, failure}
use telegramv.Storage.{Database, PeerRow}
use telegramv.Groups.{GroupContext}
use telegramv.Groups.References.{invite_hash}
use telegramv.Telegram.PeerCache.{Memory, persist_many, put_all}
use telegramv.Telegram.Gateway.{Entity, group_context, input_channel, is_chat}

-- The peers that are cached, in memory and in the database.
pub record Cache : Type 0 where
  pub memory : Memory
  pub db : Database

-- The peer of a group for an account.
unfoldable pub group_peer : ℕ → GroupContext → PeerRow
group_peer account_id group = record {
  account_id = account_id;
  peer_id = group.telegram_id;
  peer_type = group.group_type;
  access_hash = group.access_hash;
  username = Option.map codes group.username;
  title = some (codes group.title);
}

-- The peers are put in memory at once; the write of them is awaited, and is undone where it raises.
-- Where there are no peers, nothing is written.
keep_peers : Result Unit → List PeerRow → Cache → Cache × Result Unit
keep_peers write [] cache = (cache, Result.returned tt)
keep_peers (Result.returned _) (peer ∷ peers) cache =
    let (memory, db, _) = persist_many (peer ∷ peers) cache.memory cache.db in
    (record { memory = memory; db = db }, Result.returned tt)
keep_peers (Result.raised e) (peer ∷ peers) cache =
    (record cache { memory = put_all (peer ∷ peers) cache.memory }, Result.raised e)

-- What is returned behind an awaited write.
behind_write : {A : Type 0} → A → Cache × Result Unit → Cache × Result A
behind_write a (cache, Result.returned _) = (cache, Result.returned a)
behind_write a (cache, Result.raised e) = (cache, Result.raised e)

-- The group of an entity, whose peer is cached.
kept_group : Result Unit → ℕ → Option Bool → Entity → Cache → Cache × Result GroupContext
unfolding keep_peers group_peer behind_write
kept_group write account_id is_member_override entity cache =
    let group = group_context is_member_override entity in
    behind_write group (keep_peers write (group_peer account_id group ∷ []) cache)

-- CheckChatInviteRequest: the chat, where the invite shows it, and the title.
pub record Invite : Type 0 where
  pub chat : Option Entity
  pub title : Option String

-- What Telegram answers to an invite's check, to an invite's import, to a name, and to the request to
-- join a channel; and how the database's write of the peers ends.
pub record Answers : Type 0 where
  pub check_invite : Text → Result Invite
  pub import_invite : Text → Result (List Entity)
  pub get_entity : Text → Result Entity
  pub join_channel : Result Unit
  pub write : Result Unit

abbrev invite_title : Option String → String
invite_title none = "Private invite"
invite_title (some title) = if str_eq title "" then "Private invite" else title

checked_invite :
    Result Unit → ℕ → Option String → Option Entity → Cache → Cache × Result GroupContext
unfolding kept_group
checked_invite write account_id title (some entity) cache =
    kept_group write account_id (some true) entity cache
checked_invite write account_id title none cache = (
  cache,
  Result.raised (
      failure "RuntimeError" (
        string_append "Invite '" (
          string_append (invite_title title)
            "' is valid but the account must join before members can be read"))),
)

from_invite : Result Unit → ℕ → Result Invite → Cache → Cache × Result GroupContext
unfolding checked_invite
from_invite write account_id (Result.raised e) cache = (cache, Result.raised e)
from_invite write account_id (Result.returned invite) cache =
    checked_invite write account_id invite.title invite.chat cache

from_entity : Result Unit → ℕ → Result Entity → Cache → Cache × Result GroupContext
unfolding kept_group
from_entity write account_id (Result.raised e) cache = (cache, Result.raised e)
from_entity write account_id (Result.returned entity) cache =
    kept_group write account_id none entity cache

by_token : Answers → ℕ → Text → Option Text → Cache → Cache × Result GroupContext
unfolding from_invite from_entity
by_token answers account_id reference (some token) cache =
    from_invite answers.write account_id (answers.check_invite token) cache
by_token answers account_id reference none cache =
    from_entity answers.write account_id (answers.get_entity reference) cache

unfoldable pub resolve_group : Answers → ℕ → Text → Cache → Cache × Result GroupContext
unfolding by_token
resolve_group answers account_id reference cache =
    by_token answers account_id reference (invite_hash reference) cache

-- A dialog: its entity, and whether it is a group or a channel.
pub record Dialog : Type 0 where
  pub entity : Entity
  pub is_group : Bool
  pub is_channel : Bool

dialog_groups : List Dialog → List GroupContext
dialog_groups [] = []
dialog_groups (dialog ∷ dialogs) =
    let rest = dialog_groups dialogs in
    if dialog.is_group || dialog.is_channel
    then group_context (some true) dialog.entity ∷ rest
    else rest

unfoldable pub get_joined_groups :
    Result Unit → ℕ → Result (List Dialog) → Cache → Cache × Result (List GroupContext)
unfolding dialog_groups keep_peers group_peer behind_write
get_joined_groups write account_id (Result.raised e) cache = (cache, Result.raised e)
get_joined_groups write account_id (Result.returned dialogs) cache =
    let groups = dialog_groups dialogs in
    behind_write groups (keep_peers write (map (group_peer account_id) groups) cache)

imported : Result Unit → ℕ → List Entity → Cache → Cache × Result GroupContext
unfolding kept_group
imported write account_id [] cache = (
  cache,
  Result.raised (failure "RuntimeError" "Joined invite but Telegram returned no chat entity"),
)
imported write account_id (chat ∷ chats) cache = kept_group write account_id (some true) chat cache

-- A public group is joined, and then resolved; `joined` are the answers behind the joining.
join_entity : Answers → Answers → ℕ → Text → Entity → Cache → Cache × Result GroupContext
unfolding resolve_group is_chat
join_entity answers joined account_id reference entity cache =
    if is_chat entity.entity_type
    then (cache, Result.returned (group_context (some true) entity))
    else elim answers.join_channel [
      | Result.raised e ↦ (cache, Result.raised e)
      | Result.returned _ ↦ resolve_group joined account_id reference cache
    ]

unfoldable pub join_group : Answers → Answers → ℕ → Text → Cache → Cache × Result GroupContext
unfolding imported join_entity
join_group answers joined account_id reference cache = elim (invite_hash reference) [
  | some token ↦ elim (answers.import_invite token) [
    | Result.raised e ↦ (cache, Result.raised e)
    | Result.returned chats ↦ imported answers.write account_id chats cache
  ]
  | none ↦ elim (answers.get_entity reference) [
    | Result.raised e ↦ (cache, Result.raised e)
    | Result.returned entity ↦ join_entity answers joined account_id reference entity cache
  ]
]

-- What is sent to leave a group: the account's own user is taken out of a chat.
pub data Leave : Type 0 where
  delete_self : ℕ → Leave
  leave_channel : ℕ × ℤ → Leave

unfoldable pub leave_group : GroupContext → Result Leave
unfolding is_chat input_channel
leave_group group =
    if is_chat group.group_type
    then Result.returned (Leave.delete_self group.telegram_id)
    else elim (input_channel group) [
      | Result.raised e ↦ Result.raised e
      | Result.returned channel ↦ Result.returned (Leave.leave_channel channel)
    ]
