-- ===== src/Telegram/ParticipantScanner.antt =====
-- src/tms/telegram/participant_scanner.py. The producer hands each page to the consumer in order, with
-- the offset behind it, through asyncio's bounded queue; the pages that reach the consumer, how the
-- producer ends and whether a cancellation was asked for are arguments. The abort of the consumer
-- finds it at the queue. The rate and the depth of the queue in the progress events are left out.
pub mod Run
pub mod Unseen
pub mod Flushes
pub mod Stored
pub mod Resume
use telegramv.Prelude.{
  ℕ, ℤ, pos, ◌+◌, ◌≤◌, Bool, true, false, not, List, [], ◌∷◌, ◌++◌, Option, none, some, String,
  string_append, show, codes, if◌then◌else◌, leb, length, contains, is_some,
}
use telegramv.Core.{JobState, scan_db_batch_size}
use telegramv.Storage.{Database, Json, JsonValue, Message, PeerRow}
use telegramv.Members.{Member}
use telegramv.Members.Repository.{Source, IngestSummary, ingest_batch}
use telegramv.Groups.{GroupContext}
use telegramv.Jobs
use telegramv.Jobs.{StateOptions}
use telegramv.Telegram.PeerCache.{Memory, put_memory}

pub record ScanCheckpoint : Type 0 where
  pub offset : ℕ
  pub accepted : ℕ
  pub invalid : ℕ
  pub cancelled : Bool

-- A page of the queue, with the offset behind it.
pub record PageEnvelope : Type 0 where
  pub page : List Member
  pub next_offset : ℕ

-- The producer, from an offset on.
unfoldable pub envelopes : ℕ → List (List Member) → List PageEnvelope
envelopes offset [] = []
envelopes offset (page ∷ pages) =
    record { page = page; next_offset = offset + length page }
    ∷ envelopes (offset + length page) pages

-- What the consumer keeps between two pages.
pub record Consumer : Type 0 where
  pub seen : List ℕ
  pub batch : List Member
  pub batch_offset : ℕ

abbrev append_member : Member → Consumer → Consumer
append_member member c = record c { batch = c.batch ++ member ∷ [] }

-- A member with or without a user id.
unfoldable pub take_uid : Option ℕ → Member → Consumer → Consumer
take_uid none member c = append_member member c
take_uid (some uid) member c =
    if contains c.seen uid then c else record (append_member member c) { seen = uid ∷ c.seen }

unfoldable pub take_member : Member → Consumer → Consumer
unfolding take_uid
take_member member c = take_uid member.telegram_user_id member c

unfoldable pub take_members : List Member → Consumer → Consumer
unfolding take_member
take_members [] c = c
take_members (member ∷ members) c = take_members members (take_member member c)

-- The consumer after a page, before it looks whether the batch is large enough.
unfoldable pub take_page : PageEnvelope → Consumer → Consumer
unfolding take_members
take_page envelope c = record (take_members envelope.page c) { batch_offset = envelope.next_offset }

unfoldable pub is_full : Consumer → Bool
is_full c = leb scan_db_batch_size (length c.batch)

-- What a scan is about.
pub record Scan : Type 0 where
  pub job_id : ℕ
  pub account_id : ℕ
  pub group : GroupContext
  pub dataset_id : ℕ

-- A published progress event.
pub record Progress : Type 0 where
  pub job_id : ℕ
  pub offset : ℕ
  pub accepted : ℕ
  pub invalid : ℕ

pub record Store : Type 0 where
  pub db : Database
  pub memory : Memory
  pub checkpoint : ScanCheckpoint
  pub progress : List Progress

-- The peers of a batch that have an id and an access hash.
unfoldable pub remember : ℕ → List Member → Memory → Memory
remember account_id [] memory = memory
remember account_id (member ∷ members) memory = elim member.telegram_user_id [
  | none ↦ remember account_id members memory
  | some uid ↦ elim member.access_hash [
    | none ↦ remember account_id members memory
    | some hash ↦ remember account_id members (
        put_memory
          (record {
            account_id = account_id;
            peer_id = uid;
            peer_type = "User";
            access_hash = some hash;
            username = member.username;
            title = none;
          })
          memory)
  ]
]

abbrev pub checkpoint_json : ScanCheckpoint → Json
checkpoint_json cp =
    ("offset", JsonValue.number (pos cp.offset))
    ∷ ("accepted", JsonValue.number (pos cp.accepted))
    ∷ ("invalid", JsonValue.number (pos cp.invalid))
    ∷ []

abbrev pub source_of : Scan → Source
source_of scan = record {
  dataset_id = scan.dataset_id;
  source_group_id = scan.group.local_group_id;
  account_id = some scan.account_id;
  source_label = some (codes scan.group.title);
}

unfoldable pub counted : ℕ → IngestSummary → ScanCheckpoint → ScanCheckpoint
counted offset summary cp = record cp {
  offset = offset;
  accepted = cp.accepted + summary.accepted;
  invalid = cp.invalid + summary.invalid;
}

-- The batch is stored: its checkpoint is written and its progress published.
unfoldable pub stored : Scan → ℕ → Database × IngestSummary → Store → Store
unfolding counted
stored scan offset (db, summary) s =
    let cp = counted offset summary s.checkpoint in
    record s {
      db = Jobs.set_checkpoint scan.job_id (checkpoint_json cp) db;
      checkpoint = cp;
      progress =
          s.progress
          ++ record {
            job_id = scan.job_id;
            offset = cp.offset;
            accepted = cp.accepted;
            invalid = cp.invalid;
          }
            ∷ [];
    }

-- `persist_batch`, and whether its transaction did not fail
unfoldable pub persist_batch : Scan → List Member → ℕ → Store → Store × Bool
unfolding remember stored
persist_batch scan [] offset s = (s, true)
persist_batch scan (member ∷ members) offset s =
    let s' = record s { memory = remember scan.account_id (member ∷ members) s.memory } in
    elim (ingest_batch (source_of scan) (member ∷ members) s.db) [
      | none ↦ (s', false)
      | some result ↦ (stored scan offset result s', true)
    ]
