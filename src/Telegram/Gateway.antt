-- ===== src/Telegram/Gateway.antt =====
-- src/tms/telegram/telethon_gateway.py and src/tms/telegram/member_action_gateway.py. What a request
-- to Telegram is answered is an argument; a request is the value that is sent. Group types are ASCII.
pub mod Pages
pub mod Resumed
pub mod Groups
use telegramv.Prelude.{
  ℕ, ℤ, zero, suc, ◌+◌, max, min, Bool, true, false, not, ◌&&◌, ◌||◌, List, [], ◌∷◌, Option, none,
  some, String, codes, lower, text_eq, str_eq, show, ltb, if◌then◌else◌, is_some, or_else, length,
}
use telegramv.Core.{Failure, Result, failure}
use telegramv.Storage.{Database}
use telegramv.Accounts
use telegramv.Members.{Member}
use telegramv.Groups.{GroupContext}

-- `_session`
unfoldable pub session_path : ℕ → Database → Result String
session_path account_id db = elim (Accounts.get account_id db) [
  | none ↦ Result.raised (failure "KeyError" "Unknown account id")
  | some account ↦
      if account.enabled
      then Result.returned account.session_path
      else Result.raised (failure "RuntimeError" "Selected account is disabled")
]

-- What the gateway reads of a Telegram entity; a right that is missing is false.
pub record Entity : Type 0 where
  pub id : ℕ
  pub entity_type : String
  pub creator : Bool
  pub left : Bool
  pub broadcast : Bool
  pub username : Option String
  pub access_hash : Option ℤ
  pub title : Option String
  pub first_name : Option String
  -- `admin_rights.invite_users` and `default_banned_rights.invite_users`
  pub admin_rights : Option Bool
  pub default_banned : Option Bool

unfoldable pub is_chat : String → Bool
is_chat group_type = text_eq (lower (codes group_type)) (codes "chat")

unfoldable pub member_of : Option Bool → Entity → Bool
member_of none entity = not entity.left
member_of (some is_member) entity = is_member

unfoldable pub can_invite : Bool → Entity → Bool
unfolding is_chat
can_invite is_member entity =
    entity.creator
    || or_else entity.admin_rights false
    || (is_member && not entity.broadcast && not (or_else entity.default_banned false))
    || (is_chat entity.entity_type && is_member && not (is_some entity.default_banned))

-- `text or other`
abbrev or_text : Option String → String → String
or_text none other = other
or_text (some text) other = if str_eq text "" then other else text

-- `_group_context`
unfoldable pub group_context : Option Bool → Entity → GroupContext
unfolding can_invite member_of
group_context is_member_override entity =
    let is_member = member_of is_member_override entity in
    record {
      telegram_id = entity.id;
      access_hash = entity.access_hash;
      title = or_text entity.title (or_text entity.first_name (show entity.id));
      username = entity.username;
      group_type = entity.entity_type;
      is_member = is_member;
      is_admin = entity.creator || is_some entity.admin_rights;
      can_read = is_member || not (str_eq (or_else entity.username "") "");
      can_invite = can_invite is_member entity;
      can_send = is_member;
      local_group_id = none;
    }

-- `_input_channel`: the id and the access hash.
unfoldable pub input_channel : GroupContext → Result (ℕ × ℤ)
input_channel group = elim group.access_hash [
  | none ↦ Result.raised (failure "ValueError" "Target/source channel has no cached access hash")
  | some hash ↦ Result.returned (group.telegram_id, hash)
]

-- The pages that are yielded, and the exception that ends them, where there is one.
abbrev pub Pages : Type 0
Pages = List (List Member) × Option Failure

-- A page that was answered, and the pages behind it where it is not short.
unfoldable pub yield_page : ℕ → List Member → Option Pages → Option Pages
yield_page page_limit [] rest = some ([], none)
yield_page page_limit (user ∷ users) none =
    if ltb (length (user ∷ users)) page_limit then some ((user ∷ users) ∷ [], none) else none
yield_page page_limit (user ∷ users) (some (pages, end)) =
    if ltb (length (user ∷ users)) page_limit
    then some ((user ∷ users) ∷ [], none)
    else some ((user ∷ users) ∷ pages, end)

-- The loop over GetParticipantsRequest, from an offset on. The fuel bounds the requests.
unfoldable pub channel_pages : (ℕ → ℕ → Result (List Member)) → ℕ → ℕ → ℕ → Option Pages
unfolding yield_page
channel_pages answer zero current page_limit = none
channel_pages answer (suc fuel) current page_limit = elim (answer current page_limit) [
  | Result.raised e ↦ some ([], some e)
  | Result.returned users ↦
      yield_page page_limit users (channel_pages answer fuel (current + length users) page_limit)
]

-- The one page of a basic chat.
chat_pages : ℕ → Result (List Member) → Pages
chat_pages zero (Result.raised e) = ([], some e)
chat_pages zero (Result.returned []) = ([], none)
chat_pages zero (Result.returned (user ∷ users)) = ((user ∷ users) ∷ [], none)
chat_pages (suc offset) answer = ([], none)

-- `iter_participant_pages`, for the answers of a chat's and of a channel's requests
unfoldable pub iter_participant_pages :
    GroupContext → ℕ → ℕ → Result (List Member) → (ℕ → ℕ → Result (List Member)) → ℕ → Option Pages
unfolding is_chat chat_pages input_channel channel_pages
iter_participant_pages group offset limit full_chat answer fuel =
    if is_chat group.group_type
    then some (chat_pages offset full_chat)
    else elim (input_channel group) [
      | Result.raised e ↦ some ([], some e)
      | Result.returned channel ↦ channel_pages answer fuel offset (max 1 (min limit 200))
    ]

-- A request about a member, in a chat or in a channel.
pub data Request : Type 0 where
  add_chat_user delete_chat_user : ℕ → ℕ × ℤ → Request
  invite_to_channel ban_from_channel : ℕ × ℤ → ℕ × ℤ → Request

-- The user of a request, where the member has an id and an access hash.
input_user : String → String → Member → Result (ℕ × ℤ)
input_user no_id no_hash member = elim member.telegram_user_id [
  | none ↦ Result.raised (failure "ValueError" no_id)
  | some uid ↦ elim member.access_hash [
    | none ↦ Result.raised (failure "ValueError" no_hash)
    | some hash ↦ Result.returned (uid, hash)
  ]
]

about_user :
    GroupContext
    → (ℕ → ℕ × ℤ → Request)
    → (ℕ × ℤ → ℕ × ℤ → Request)
    → Result (ℕ × ℤ)
    → Result Request
unfolding is_chat input_channel
about_user target in_chat in_channel (Result.raised e) = Result.raised e
about_user target in_chat in_channel (Result.returned user) =
    if is_chat target.group_type
    then Result.returned (in_chat target.telegram_id user)
    else elim (input_channel target) [
      | Result.raised e ↦ Result.raised e
      | Result.returned channel ↦ Result.returned (in_channel channel user)
    ]

-- `invite_user` up to its request
unfoldable pub invite_user : GroupContext → Member → Result Request
unfolding about_user input_user
invite_user target member = about_user target Request.add_chat_user Request.invite_to_channel (
    input_user "Member has no Telegram user id"
      "Missing account-scoped cached access hash for candidate" member)

-- `remove_user` up to its request
unfoldable pub remove_user : GroupContext → Member → Result Request
unfolding about_user input_user
remove_user target member =
    about_user target Request.delete_chat_user Request.ban_from_channel
      (input_user "Missing cached candidate identity" "Missing cached candidate identity" member)
