-- ===== src/Tests/Scanner.antt =====
-- A scan of two small pages.
use mathlib.Core.Option
use telegramv.Core.{scan_db_batch_size}
use telegramv.Members.Repository.{ingest_batch}
use telegramv.Prelude.{
  ℕ, suc, ◌<◌, ◌+◌, true, false, List, [], ◌∷◌, ◌++◌, none, some, ◌≡◌, refl, length, All, arith,
  zero, pos,
}
use telegramv.Groups.{GroupContext}
use telegramv.Members.{Member}
use telegramv.Members.Repository.Paging.{concat}
use telegramv.Telegram.ParticipantScanner.{Scan, Store, envelopes}
use telegramv.Telegram.ParticipantScanner.Run.{consume, idle}
use telegramv.Telegram.ParticipantScanner.Flushes.{Flush, IsSized}
use telegramv.Telegram.ParticipantScanner.Stored.{Ingests, flushed}
use telegramv.Telegram.ParticipantScanner.Unseen.{unseen}
use telegramv.Telegram.ParticipantScanner.Resume.{consume_batches, checkpoint-IsSafe}
use telegramv.Tests.Fixtures.{source}

abbrev user : ℕ → Member
user uid = record {
  telegram_user_id = some uid;
  username = none;
  first_name = none;
  last_name = none;
  phone = none;
  bot = false;
  deleted = false;
  activity_status = none;
  last_seen = none;
  access_hash = none;
}

-- Members without an identity.
nobodies : ℕ → List Member
nobodies zero = []
nobodies (suc n) = record (user 0) { telegram_user_id = none } ∷ nobodies n

-- A page that fills a batch, and one behind it.
abbrev pages : List (List Member)
pages = nobodies 250 ∷ (user 1000 ∷ user 1000 ∷ []) ∷ []

abbrev group : GroupContext
group = record {
  telegram_id = 900;
  access_hash = none;
  title = "Source";
  username = none;
  group_type = "Channel";
  is_member = true;
  is_admin = false;
  can_read = true;
  can_invite = false;
  can_send = true;
  local_group_id = none;
}

abbrev scan : Scan
scan = record { job_id = 1; account_id = 1; group = group; dataset_id = 1 }

abbrev store : Store
store = record {
  db = source;
  memory = [];
  checkpoint = record { offset = 0; accepted = 0; invalid = 0; cancelled = false };
  progress = [];
}

consume_batches_example :
    (batches : List Flush) × Ingests scan batches store.checkpoint store.db
      (consume scan (envelopes 0 pages) (idle 0) store).1
    × All (IsSized 250) batches
    × (length (consume scan (envelopes 0 pages) (idle 0) store).0.batch < scan_db_batch_size)
    × (flushed batches ++ (consume scan (envelopes 0 pages) (idle 0) store).0.batch
        ≡ unseen [] (concat pages))
unfolding consume envelopes nobodies ingest_batch
consume_batches_example =
    consume_batches scan 250 0 pages store (omega arith, (omega arith, tt)) refl

checkpoint-IsSafe_example :
    (covered : List (List Member)) × (pending : List (List Member)) × (batches : List Flush)
    × (pages ≡ covered ++ pending)
    × (flushed batches ≡ unseen [] (concat covered))
    × Ingests scan batches store.checkpoint store.db
        (consume scan (envelopes 0 pages) (idle 0) store).1
    × ((consume scan (envelopes 0 pages) (idle 0) store).1.checkpoint.offset
        ≡ 0 + length (concat covered))
unfolding consume envelopes nobodies ingest_batch
checkpoint-IsSafe_example = checkpoint-IsSafe scan 0 pages store refl refl

-- Two pages of the server and a part of a third.
abbrev all : List Member
all = nobodies 410

abbrev channel : GroupContext
channel = record group { access_hash = some (pos 7) }

abbrev served : List (List Member)
served = nobodies 200 ∷ nobodies 200 ∷ nobodies 10 ∷ []
