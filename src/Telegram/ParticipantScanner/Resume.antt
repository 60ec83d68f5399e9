-- ===== src/Telegram/ParticipantScanner/Resume.antt =====
-- What the checkpoint of src/tms/telegram/participant_scanner.py promises to a resumption.
use telegramv.Members.Repository.{ingest_batch}
use telegramv.Core.{scan_db_batch_size}
use telegramv.Prelude.{
  ℕ, ◌+◌, ◌<◌, ◌≤◌, All, true, false, List, [], ◌∷◌, ◌++◌, length, length-append, Bool-cases,
  Option-cases, inl, inr, ◌≡◌, refl, sym, ◌∙◌, ap, arith, ◌⊎◌, leb,
}
use mathlib.Core.List.{append-nil, append_assoc}
use telegramv.Members.{Member}
use telegramv.Members.Repository.Paging.{concat}
use telegramv.Telegram.ParticipantScanner.{
  Consumer, PageEnvelope, take_page, is_full, envelopes, Scan, Store, persist_batch, stored,
  counted, source_of,
}
use telegramv.Telegram.ParticipantScanner.Run.{idle, consume, after_page}
use telegramv.Telegram.ParticipantScanner.Flushes.{
  Flush, flushes, flushes-IsSized, flushes_held, IsSized,
}
use telegramv.Telegram.ParticipantScanner.Stored.{Ingests, consume-Ingests, flushed}
use telegramv.Telegram.ParticipantScanner.Unseen.{unseen, page_split}

-- The offset that the last batch has, or the one before it.
abbrev pub last_offset : ℕ → List Flush → ℕ
last_offset start [] = start
last_offset start ((batch, offset) ∷ rest) = last_offset offset rest

-- No member is lost or stored twice: the batches and what the consumer still holds are the members of
-- the pages that were not seen before.
lossless :
    (start : ℕ) (pages : List (List Member)) (c : Consumer)
    → flushed (flushes (envelopes start pages) c).0 ++ (flushes (envelopes start pages) c).1.batch
      ≡ c.batch ++ unseen c.seen (concat pages)
unfolding flushes envelopes take_page unseen
lossless start [] c = sym (append-nil c.batch)
lossless start (page ∷ pages) c =
    let next : Consumer = take_page (record { page = page; next_offset = start + length page }) c in
    let left : List Flush × Consumer =
      flushes (envelopes (start + length page) pages) (record next { batch = [] }) in
    elim (Bool-cases (is_full next)) [
      | inl e ↦ rw e (
          append_assoc next.batch (flushed left.0) left.1.batch
          ∙ ap (λ l. next.batch ++ l)
              (lossless (start + length page) pages (record next { batch = [] }))
          ∙ page_split page (concat pages) c)
      | inr e ↦ rw e (lossless (start + length page) pages next ∙ page_split page (concat pages) c)
    ]

safe_from :
    (start before : ℕ) (pages : List (List Member)) (c : Consumer)
    → ((flushes (envelopes start pages) c).0 ≡ [])
      ⊎ ((covered : List (List Member)) × (pending : List (List Member)) × (pages
            ≡ covered ++ pending)
          × (flushed (flushes (envelopes start pages) c).0
              ≡ c.batch ++ unseen c.seen (concat covered))
          × (last_offset before (flushes (envelopes start pages) c).0
              ≡ start + length (concat covered)))
unfolding flushes envelopes take_page unseen
safe_from start before [] c = inl refl
safe_from start before (page ∷ pages) c =
    let next : Consumer = take_page (record { page = page; next_offset = start + length page }) c in
    let behind : ℕ = start + length page in
    elim (Bool-cases (is_full next)) [
      | inl e ↦ elim (safe_from behind behind pages (record next { batch = [] })) [
        | inl nothing ↦ inr (
          page ∷ [],
          pages,
          refl,
          rw (e, nothing) (page_split page [] c),
          rw (e, nothing) (omega (arith, length-append page [])),
        )
        | inr (covered, pending, whole, members, offset) ↦ inr (
          page ∷ covered,
          pending,
          ap (λ l. page ∷ l) whole,
          rw e (ap (λ l. next.batch ++ l) members ∙ page_split page (concat covered) c),
          rw e (offset ∙ omega (arith, length-append page (concat covered))),
        )
      ]
      | inr e ↦ elim (safe_from behind before pages next) [
        | inl nothing ↦ inl (rw e nothing)
        | inr (covered, pending, whole, members, offset) ↦ inr (
          page ∷ covered,
          pending,
          ap (λ l. page ∷ l) whole,
          rw e (members ∙ page_split page (concat covered) c),
          rw e (offset ∙ omega (arith, length-append page (concat covered))),
        )
      ]
    ]

persist-offset :
    (scan : Scan) (batch : List Member) (offset : ℕ) (s : Store)
    → leb scan_db_batch_size (length batch) ≡ true
    → (persist_batch scan batch offset s).1 ≡ true
    → (persist_batch scan batch offset s).0.checkpoint.offset ≡ offset
unfolding persist_batch stored counted
persist-offset scan [] offset s full ok = ground arith
persist-offset scan (member ∷ members) offset s full ok =
    elim (Option-cases (ingest_batch (source_of scan) (member ∷ members) s.db)) [
      | inl e ↦ (let clash : false ≡ true = rw (persist_batch, e) at ok in ground arith)
      | inr (result, e) ↦ rw (persist_batch, e) refl
    ]

consume-offset :
    (scan : Scan) (envs : List PageEnvelope) (c : Consumer) (s : Store)
    → (consume scan envs c s).2 ≡ true
    → (consume scan envs c s).1.checkpoint.offset
      ≡ last_offset s.checkpoint.offset (flushes envs c).0
unfolding consume after_page flushes is_full
consume-offset scan [] c s ok = refl
consume-offset scan (envelope ∷ envs) c s ok =
    let next : Consumer = take_page envelope c in
    elim (Bool-cases (is_full next)) [
      | inl e ↦ elim (Bool-cases (persist_batch scan next.batch next.batch_offset s).1) [
        | inl k ↦
            rw (e, k)
              (consume-offset scan envs (record next { batch = [] })
                  (persist_batch scan next.batch next.batch_offset s).0 (rw (e, k) at ok)
                ∙ ap (λ n. last_offset n (flushes envs (record next { batch = [] })).0)
                    (persist-offset scan next.batch next.batch_offset s e k))
        | inr k ↦ (let clash : false ≡ true = rw (e, k) at ok in ground arith)
      ]
      | inr e ↦ rw e (consume-offset scan envs next s (rw e at ok))
    ]

-- Where the consumer has stored its batches, the offset of the checkpoint ends a part of the pages
-- whose new members are exactly those that the batches have ingested: a scan that is resumed there
-- misses none.
pub checkpoint-IsSafe :
    (scan : Scan) (start : ℕ) (pages : List (List Member)) (s : Store)
    → s.checkpoint.offset ≡ start
    → (consume scan (envelopes start pages) (idle start) s).2 ≡ true
    → (covered : List (List Member)) × (pending : List (List Member)) × (batches : List Flush)
      × (pages ≡ covered ++ pending)
      × (flushed batches ≡ unseen [] (concat covered))
      × Ingests scan batches s.checkpoint s.db
          (consume scan (envelopes start pages) (idle start) s).1
      × ((consume scan (envelopes start pages) (idle start) s).1.checkpoint.offset
          ≡ start + length (concat covered))
unfolding unseen
checkpoint-IsSafe scan start pages s here ok =
    let batches : List Flush = (flushes (envelopes start pages) (idle start)).0 in
    let (ingested, _) = consume-Ingests scan (envelopes start pages) (idle start) s ok in
    let offsets : (consume scan (envelopes start pages) (idle start) s).1.checkpoint.offset
        ≡ last_offset start batches =
      consume-offset scan (envelopes start pages) (idle start) s ok
      ∙ ap (λ n. last_offset n batches) here in
    elim (safe_from start start pages (idle start)) [
      | inl nothing ↦ (
        [],
        pages,
        batches,
        refl,
        ap flushed nothing,
        ingested,
        offsets ∙ ap (last_offset start) nothing ∙ omega arith,
      )
      | inr (covered, pending, whole, members, offset) ↦
          (covered, pending, batches, whole, members, ingested, offsets ∙ offset)
    ]

-- Where its transactions succeed, the consumer ingests batches of 250 members at least, and fewer than
-- 250 and a page's limit, holds fewer than 250 at the end of the pages, and the batches and what it
-- holds are the members of the pages without repeated users.
pub consume_batches :
    (scan : Scan) (limit start : ℕ) (pages : List (List Member)) (s : Store)
    → All (λ e. length e.page ≤ limit) (envelopes start pages)
    → (consume scan (envelopes start pages) (idle start) s).2 ≡ true
    → (batches : List Flush) × Ingests scan batches s.checkpoint s.db
        (consume scan (envelopes start pages) (idle start) s).1
      × All (IsSized limit) batches
      × (length (consume scan (envelopes start pages) (idle start) s).0.batch < scan_db_batch_size)
      × (flushed batches ++ (consume scan (envelopes start pages) (idle start) s).0.batch
          ≡ unseen [] (concat pages))
consume_batches scan limit start pages s short ok =
    let envs : List PageEnvelope = envelopes start pages in
    let (ingested, left) = consume-Ingests scan envs (idle start) s ok in
    (
      (flushes envs (idle start)).0,
      ingested,
      flushes-IsSized limit envs (idle start) short (omega arith),
      rw left (flushes_held envs (idle start) (omega arith)),
      rw left (lossless start pages (idle start)),
    )
