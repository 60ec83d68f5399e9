-- ===== src/Groups/References.antt =====
-- src/tms/groups/service.py: the references of groups. Python's `urlparse` is an argument, as the
-- netloc and the path of a url. References are ASCII.
pub mod Links
use telegramv.Prelude.{
  ℕ, Bool, ◌&&◌, ◌||◌, not, List, [], ◌∷◌, ◌++◌, Option, none, some, Text, codes, lower, text_in,
  strip, lstrip, split, occurs, starts_with, ◌==◌, leb, if◌then◌else◌,
}
use mathlib.Core.List.{reverse}
use telegramv.Members.{is_nonempty}

-- `[A-Za-z0-9_-]`
unfoldable pub is_token : ℕ → Bool
is_token c =
    (leb b'A' c && leb c b'Z')
    || (leb b'a' c && leb c b'z')
    || (leb b'0' c && leb c b'9')
    || c == b'_'
    || c == b'-'

token_prefix : Text → Text
token_prefix [] = []
token_prefix (c ∷ cs) = let rest = token_prefix cs in if is_token c then c ∷ rest else []

-- What stands behind a prefix.
behind : Text → Text → Option Text
behind [] text = some text
behind (p ∷ ps) [] = none
behind (p ∷ ps) (c ∷ cs) = let rest = behind ps cs in if p == c then rest else none

either : Option Text → Option Text → Option Text
either (some a) b = some a
either none b = b

-- The token behind `joinchat/` or `+`.
after_host : Option Text → Option Text
unfolding behind token_prefix either is_token
after_host none = none
after_host (some text) = elim (either (behind (codes "joinchat/") text) (behind (codes "+") text)) [
  | none ↦ none
  | some rest ↦ let token = token_prefix rest in if is_nonempty token then some token else none
]

invite_here : Text → Option Text
unfolding after_host behind either
invite_here text =
    either (after_host (behind (codes "t.me/") text))
      (after_host (behind (codes "telegram.me/") text))

search : Text → Option Text
unfolding invite_here either
search [] = none
search (c ∷ cs) = either (invite_here (c ∷ cs)) (search cs)

-- `invite_hash`
unfoldable pub invite_hash : Text → Option Text
unfolding search
invite_hash reference = search (strip reference)

abbrev telegram_hosts : List Text
telegram_hosts =
    codes "t.me" ∷ codes "www.t.me" ∷ codes "telegram.me" ∷ codes "www.telegram.me" ∷ []

-- `path.strip("/")`
strip_slashes : Text → Text
strip_slashes path = reverse (lstrip (λ c. c == b'/') (reverse (lstrip (λ c. c == b'/') path)))

first_part : List Text → Text
first_part [] = []
first_part (part ∷ parts) = part

-- The name in the path of a url of Telegram, or else the reference.
public_name : Text → Text × Text → Text
unfolding strip_slashes first_part
public_name value (netloc, path) =
    let stripped = strip_slashes path in
    if text_in telegram_hosts (lower netloc)
      && is_nonempty stripped
      && not (starts_with (codes "+") stripped)
      && not (starts_with (codes "joinchat/") stripped)
    then first_part (split b'/' stripped)
    else value

unfoldable pub normalize_group_reference : (Text → Text × Text) → Text → Text
unfolding public_name
normalize_group_reference urlparse reference = elim (strip reference) [
  | [] ↦ []
  | c ∷ cs ↦
      if c == b'@'
      then cs
      else public_name (c ∷ cs)
          (urlparse (if occurs (codes "://") (c ∷ cs) then c ∷ cs else codes "https://" ++ c ∷ cs))
]
