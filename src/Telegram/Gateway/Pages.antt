-- ===== src/Telegram/Gateway/Pages.antt =====
-- The pages of src/tms/telegram/telethon_gateway.py for a server that answers each request with the
-- participants from its offset on, as many as its limit.
use telegramv.Groups.{GroupContext}
use telegramv.Prelude.{
  ℕ, zero, suc, ◌+◌, ◌-◌, ◌≤◌, ◌<◌, max, min, true, false, List, [], ◌∷◌, ◌++◌, Option, none, some,
  ltb, ltb→lt, length, take, drop, length-drop, drop-drop, drop-length-take, take-drop, take-short,
  Bool-cases, inl, inr, ◌≡◌, refl, sym, ◌∙◌, ap, arith, ℤ,
}
use mathlib.Core.Option
use mathlib.Core.List.{append-nil}
use telegramv.Core.{Failure, Result}
use telegramv.Members.{Member}
use telegramv.Members.Repository.Paging.{concat}
use telegramv.Telegram.Gateway.{
  Pages, channel_pages, yield_page, iter_participant_pages, is_chat, input_channel,
}

abbrev pub serve : List Member → ℕ → ℕ → Result (List Member)
serve all offset limit = Result.returned (take limit (drop offset all))

-- The members of the pages, and how they end.
abbrev pub members_of : Pages → List Member × Option Failure
members_of (pages, end) = (concat pages, end)

short-members :
    (limit : ℕ) (page : List Member) (rest : Option Pages)
    → ltb (length page) limit ≡ true
    → Option.map members_of (yield_page limit page rest) ≡ some (page, none)
unfolding yield_page
short-members limit [] rest short = refl
short-members limit (x ∷ page) none short =
    rw short (ap (λ l. some (l, none)) (append-nil (x ∷ page)))
short-members limit (x ∷ page) (some pages) short =
    rw short (ap (λ l. some (l, none)) (append-nil (x ∷ page)))

full-members :
    (limit : ℕ) (page tail : List Member) (rest : Option Pages)
    → 0 < length page
    → ltb (length page) limit ≡ false
    → Option.map members_of rest ≡ some (tail, none)
    → Option.map members_of (yield_page limit page rest) ≡ some (page ++ tail, none)
unfolding yield_page
full-members limit [] tail rest some_users full e = absurd (omega arith)
full-members limit (x ∷ page) tail none some_users full e = ground arith
full-members limit (x ∷ page) tail (some pages) some_users full e =
    rw full (ap (Option.map (λ p. ((x ∷ page) ++ p.0, p.1))) e)

length-take-length : (n : ℕ) (xs : List Member) → length (take n xs) ≤ length xs
length-take-length zero xs = omega arith
length-take-length (suc n) [] = omega arith
length-take-length (suc n) (x ∷ xs) = omega (arith, length-take-length n xs)

served :
    (fuel offset m : ℕ) (all : List Member)
    → length (drop offset all) < fuel
    → Option.map members_of (channel_pages (serve all) fuel offset (suc m))
      ≡ some (drop offset all, none)
unfolding channel_pages
served zero offset m all enough = absurd (omega (arith, enough))
served (suc fuel) offset m all enough =
    let page : List Member = take (suc m) (drop offset all) in
    let rest : Option Pages = channel_pages (serve all) fuel (offset + length page) (suc m) in
    elim (Bool-cases (ltb (length page) (suc m))) [
      | inl short ↦
          short-members (suc m) page rest short
          ∙ ap (λ l. some (l, none))
              (take-short (suc m) (drop offset all) (ltb→lt (length page) (suc m) short))
      | inr full ↦
          let many : 0 < length page = ground arith in
          let order : offset + length page ≡ length page + offset = omega arith in
          let behind : drop (offset + length page) all ≡ drop (suc m) (drop offset all) =
            ap (λ n. drop n all) order
            ∙ sym (drop-drop (length page) offset all)
            ∙ drop-length-take (suc m) (drop offset all) in
          let shorter : length (drop (offset + length page) all) < fuel = omega (
            arith,
            many,
            enough,
            length-drop (offset + length page) all,
            length-drop offset all,
            length-take-length (suc m) (drop offset all),
          ) in
          full-members (suc m) page (drop (offset + length page) all) rest many full
            (served fuel (offset + length page) m all shorter)
          ∙ ap (λ l. some (page ++ l, none)) behind
          ∙ ap (λ l. some (l, none)) (take-drop (suc m) (drop offset all))
    ]

-- For a channel whose access hash is known, the pages from an offset on end without an exception and
-- are together the participants behind the offset, whatever the limit that is asked for, where the
-- server answers each request with the participants from its offset on, as many as its limit; a
-- request for each participant and one more are enough.
pub pages_complete :
    (group : GroupContext) (hash : ℤ) (offset limit : ℕ) (full_chat : Result (List Member))
    (all : List Member)
    → is_chat group.group_type ≡ false
    → group.access_hash ≡ some hash
    → Option.map members_of
        (iter_participant_pages group offset limit full_chat (serve all) (suc (length all)))
      ≡ some (drop offset all, none)
unfolding iter_participant_pages input_channel
pages_complete group hash offset limit full_chat all channel known =
    let size : max 1 (min limit 200) ≡ suc (max 1 (min limit 200) - 1) = omega arith in
    rw (channel, known)
      (ap (λ n. Option.map members_of (channel_pages (serve all) (suc (length all)) offset n)) size
        ∙ served (suc (length all)) offset (max 1 (min limit 200) - 1) all
            (omega (arith, length-drop offset all)))
