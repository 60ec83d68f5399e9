-- ===== src/Telegram/ParticipantScanner/Unseen.antt =====
-- The members that src/tms/telegram/participant_scanner.py takes from a page.
use telegramv.Prelude.{
  ℕ, List, [], ◌∷◌, ◌++◌, Option, none, some, if◌then◌else◌, contains, Bool-cases, inl, inr, ◌≡◌,
  refl, sym, ◌∙◌, ap,
}
use mathlib.Core.List.{append-nil, append_assoc}
use telegramv.Members.{Member}
use telegramv.Telegram.ParticipantScanner.{Consumer, take_member, take_members, take_uid}

-- Whether a user id, where there is one, is new; and the ids that are seen after it.
unfoldable pub kept : Option ℕ → Member → List ℕ → List Member
kept none member seen = member ∷ []
kept (some uid) member seen = if contains seen uid then [] else member ∷ []

unfoldable pub see : Option ℕ → List ℕ → List ℕ
see none seen = seen
see (some uid) seen = if contains seen uid then seen else uid ∷ seen

-- The members without those whose user was seen before.
unfoldable pub unseen : List ℕ → List Member → List Member
unfolding kept see
unseen seen [] = []
unseen seen (member ∷ members) =
    kept member.telegram_user_id member seen ++ unseen (see member.telegram_user_id seen) members

unfoldable pub seen_after : List ℕ → List Member → List ℕ
unfolding see
seen_after seen [] = seen
seen_after seen (member ∷ members) = seen_after (see member.telegram_user_id seen) members

taken_uid :
    (o : Option ℕ) (member : Member) (c : Consumer)
    → ((take_uid o member c).batch ≡ c.batch ++ kept o member c.seen)
      × ((take_uid o member c).seen ≡ see o c.seen)
unfolding take_uid kept see
taken_uid none member c = (refl, refl)
taken_uid (some uid) member c = elim (Bool-cases (contains c.seen uid)) [
  | inl k ↦ rw k (sym (append-nil c.batch), refl)
  | inr k ↦ rw k (refl, refl)
]

taken :
    (members : List Member) (c : Consumer)
    → ((take_members members c).batch ≡ c.batch ++ unseen c.seen members)
      × ((take_members members c).seen ≡ seen_after c.seen members)
unfolding take_members take_member unseen seen_after
taken [] c = (sym (append-nil c.batch), refl)
taken (member ∷ members) c =
    let (batch, seen) = taken_uid member.telegram_user_id member c in
    let next : Consumer = take_uid member.telegram_user_id member c in
    let (batches, seens) = taken members next in
    (
      batches
          ∙ ap (λ l. l ++ unseen next.seen members) batch
          ∙ ap (λ l. (c.batch ++ kept member.telegram_user_id member c.seen) ++ unseen l members)
              seen
          ∙ append_assoc c.batch (kept member.telegram_user_id member c.seen)
              (unseen (see member.telegram_user_id c.seen) members),
      seens ∙ ap (λ l. seen_after l members) seen,
    )

unseen-append :
    (seen : List ℕ) (xs ys : List Member)
    → unseen seen (xs ++ ys) ≡ unseen seen xs ++ unseen (seen_after seen xs) ys
unfolding unseen seen_after
unseen-append seen [] ys = refl
unseen-append seen (member ∷ xs) ys =
    ap (λ l. kept member.telegram_user_id member seen ++ l)
      (unseen-append (see member.telegram_user_id seen) xs ys)
    ∙ sym (
        append_assoc (kept member.telegram_user_id member seen)
          (unseen (see member.telegram_user_id seen) xs)
          (unseen (seen_after (see member.telegram_user_id seen) xs) ys))

-- The members of a page and of what follows it, seen by the consumer before or behind the page.
pub page_split :
    (page rest : List Member) (c : Consumer)
    → (take_members page c).batch ++ unseen (take_members page c).seen rest
      ≡ c.batch ++ unseen c.seen (page ++ rest)
page_split page rest c =
    let (batch, seen) = taken page c in
    ap (λ l. l ++ unseen (take_members page c).seen rest) batch
    ∙ ap (λ l. (c.batch ++ unseen c.seen page) ++ unseen l rest) seen
    ∙ append_assoc c.batch (unseen c.seen page) (unseen (seen_after c.seen page) rest)
    ∙ ap (λ l. c.batch ++ l) (sym (unseen-append c.seen page rest))
