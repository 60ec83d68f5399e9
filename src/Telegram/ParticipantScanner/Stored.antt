-- ===== src/Telegram/ParticipantScanner/Stored.antt =====
-- What the consumer of src/tms/telegram/participant_scanner.py leaves in the database.
use telegramv.Prelude.{
  ℕ, true, false, List, [], ◌∷◌, ◌++◌, some, length, Bool-cases, Option-cases, inl, inr, ◌≡◌, refl,
  arith, leb,
}
use telegramv.Core.{scan_db_batch_size}
use telegramv.Storage.{Database}
use telegramv.Members.{Member}
use telegramv.Members.Repository.{IngestSummary, ingest_batch}
use telegramv.Jobs
use telegramv.Telegram.ParticipantScanner.{
  Consumer, PageEnvelope, ScanCheckpoint, take_page, is_full, Scan, Store, persist_batch, stored,
  source_of, checkpoint_json, counted,
}
use telegramv.Telegram.ParticipantScanner.Run.{consume, after_page}
use telegramv.Telegram.ParticipantScanner.Flushes.{Flush, flushes}

-- The batches are ingested one after another, each in one transaction, behind which the job's
-- checkpoint has the batch's offset and what its ingestion counted.
unfoldable pub Ingests : Scan → List Flush → ScanCheckpoint → Database → Store → Type 0
unfolding counted
Ingests scan [] cp db after = (after.checkpoint ≡ cp) × (after.db ≡ db)
Ingests scan ((batch, offset) ∷ rest) cp db after =
    (mid : Database) × (summary : IngestSummary) × (ingest_batch (source_of scan) batch db
      ≡ some (mid, summary))
    × Ingests scan rest (counted offset summary cp)
        (Jobs.set_checkpoint scan.job_id (checkpoint_json (counted offset summary cp)) mid) after

-- The members of the batches.
abbrev pub flushed : List Flush → List Member
flushed [] = []
flushed ((batch, offset) ∷ rest) = batch ++ flushed rest

persist-Ingests :
    (scan : Scan) (batch : List Member) (offset : ℕ) (s : Store)
    → leb scan_db_batch_size (length batch) ≡ true
    → (persist_batch scan batch offset s).1 ≡ true
    → (mid : Database) × (summary : IngestSummary) × (ingest_batch (source_of scan) batch s.db
        ≡ some (mid, summary))
      × ((persist_batch scan batch offset s).0.checkpoint ≡ counted offset summary s.checkpoint)
      × ((persist_batch scan batch offset s).0.db
          ≡ Jobs.set_checkpoint scan.job_id
              (checkpoint_json (counted offset summary s.checkpoint))
              mid)
unfolding persist_batch stored
persist-Ingests scan [] offset s full ok = ground arith
persist-Ingests scan (member ∷ members) offset s full ok =
    elim (Option-cases (ingest_batch (source_of scan) (member ∷ members) s.db)) [
      | inl e ↦ (let clash : false ≡ true = rw (persist_batch, e) at ok in ground arith)
      | inr ((mid, summary), e) ↦
          (mid, summary, e, rw (persist_batch, e) refl, rw (persist_batch, e) refl)
    ]

-- The database after the consumer's batches, and the consumer that is left.
pub consume-Ingests :
    (scan : Scan) (envs : List PageEnvelope) (c : Consumer) (s : Store)
    → (consume scan envs c s).2 ≡ true
    → Ingests scan (flushes envs c).0 s.checkpoint s.db (consume scan envs c s).1
      × ((consume scan envs c s).0 ≡ (flushes envs c).1)
unfolding consume after_page flushes is_full Ingests
consume-Ingests scan [] c s ok = ((refl, refl), refl)
consume-Ingests scan (envelope ∷ envs) c s ok =
    let next : Consumer = take_page envelope c in
    elim (Bool-cases (is_full next)) [
      | inl e ↦ elim (Bool-cases (persist_batch scan next.batch next.batch_offset s).1) [
        | inl k ↦
            let (mid, summary, ingested, cp, db) =
              persist-Ingests scan next.batch next.batch_offset s e k in
            let (stored_rest, left) =
              consume-Ingests scan envs (record next { batch = [] })
                (persist_batch scan next.batch next.batch_offset s).0 (rw (e, k) at ok) in
            rw (e, k) ((mid, summary, ingested, (rw (cp, db) at stored_rest)), left)
        | inr k ↦ (let clash : false ≡ true = rw (e, k) at ok in ground arith)
      ]
      | inr e ↦ rw e (consume-Ingests scan envs next s (rw e at ok))
    ]
