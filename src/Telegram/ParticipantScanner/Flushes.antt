-- ===== src/Telegram/ParticipantScanner/Flushes.antt =====
-- The batches that the consumer of src/tms/telegram/participant_scanner.py stores.
use telegramv.Prelude.{
  ℕ, ◌+◌, ◌≤◌, ◌<◌, List, [], ◌∷◌, Option, none, some, if◌then◌else◌, leb, length, length-snoc,
  contains, Bool-cases, inl, inr, arith, All, leb→le,
}
use telegramv.Core.{scan_db_batch_size}
use telegramv.Members.{Member}
use telegramv.Telegram.ParticipantScanner.{
  Consumer, PageEnvelope, take_member, take_members, take_page, is_full, take_uid,
}

-- A batch with its offset.
abbrev pub Flush : Type 0
Flush = List Member × ℕ

-- What is stored for the pages, and the consumer that is left.
unfoldable pub flushes : List PageEnvelope → Consumer → List Flush × Consumer
flushes [] c = ([], c)
flushes (envelope ∷ envelopes) c =
    let c' = take_page envelope c in
    let kept = flushes envelopes (if is_full c' then record c' { batch = [] } else c') in
    if is_full c' then ((c'.batch, c'.batch_offset) ∷ kept.0, kept.1) else kept

length-take_uid :
    (o : Option ℕ) (member : Member) (c : Consumer)
    → length (take_uid o member c).batch ≤ length c.batch + 1
unfolding take_uid
length-take_uid none member c = omega (arith, length-snoc c.batch member)
length-take_uid (some uid) member c = elim (Bool-cases (contains c.seen uid)) [
  | inl k ↦ rw k (omega arith)
  | inr k ↦ rw k (omega (arith, length-snoc c.batch member))
]

length-take_members :
    (members : List Member) (c : Consumer)
    → length (take_members members c).batch ≤ length c.batch + length members
unfolding take_members take_member
length-take_members [] c = omega arith
length-take_members (member ∷ members) c = omega (
  arith,
  length-take_members members (take_member member c),
  length-take_uid member.telegram_user_id member c,
)

abbrev pub IsSized : ℕ → Flush → Type 0
IsSized limit flush =
    (scan_db_batch_size ≤ length flush.0) × (length flush.0 < scan_db_batch_size + limit)

-- The batches that are stored before the end of the queue have at least the size at which they are
-- stored, and fewer members than that and one page more.
pub flushes-IsSized :
    (limit : ℕ) (envelopes : List PageEnvelope) (c : Consumer)
    → All (λ e. length e.page ≤ limit) envelopes
    → length c.batch < scan_db_batch_size
    → All (IsSized limit) (flushes envelopes c).0
unfolding flushes take_page is_full
flushes-IsSized limit [] c pages small = tt
flushes-IsSized limit (envelope ∷ envelopes) c (page, pages) small =
    let grown : length (take_members envelope.page c).batch
        ≤ length c.batch + length envelope.page =
      length-take_members envelope.page c in
    elim (Bool-cases (leb scan_db_batch_size (length (take_members envelope.page c).batch))) [
      | inl e ↦ rw e (
        (
          leb→le scan_db_batch_size (length (take_members envelope.page c).batch) e,
          omega (arith, grown),
        ),
        flushes-IsSized limit envelopes (record (take_page envelope c) { batch = [] }) pages
            (omega arith),
      )
      | inr e ↦ rw e (flushes-IsSized limit envelopes (take_page envelope c) pages (ground arith))
    ]

-- What is held back is less than a batch.
pub flushes_held :
    (envelopes : List PageEnvelope) (c : Consumer)
    → length c.batch < scan_db_batch_size
    → length (flushes envelopes c).1.batch < scan_db_batch_size
unfolding flushes take_page is_full
flushes_held [] c small = small
flushes_held (envelope ∷ envelopes) c small =
    elim (Bool-cases (leb scan_db_batch_size (length (take_members envelope.page c).batch))) [
      | inl e ↦
          rw e (flushes_held envelopes (record (take_page envelope c) { batch = [] }) (omega arith))
      | inr e ↦ rw e (flushes_held envelopes (take_page envelope c) (ground arith))
    ]
