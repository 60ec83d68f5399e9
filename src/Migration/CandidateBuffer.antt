-- ===== src/Migration/CandidateBuffer.antt =====
-- src/tms/migration/candidate_buffer.py. The read that a worker makes for `_loading` is taken at
-- its submission; `last_loaded` is `none` for the -1 of a buffer that has loaded nothing.
use telegramv.Prelude.{
  ℕ, ◌/◌, min, max, Bool, true, false, ◌||◌, List, [], ◌∷◌, ◌++◌, map, Option, none, some, leb,
  if◌then◌else◌, is_some, length,
}
use telegramv.Core.{candidate_prefetch_min, candidate_prefetch_max}
use telegramv.Storage.{Database}
use telegramv.Members.{Member}
use telegramv.Jobs.Items.{PendingRow, pending_chunk}

pub record BufferedCandidate : Type 0 where
  pub ordinal : ℕ
  pub member : Member
  pub persisted_attempts : ℕ

pub record CandidateBuffer : Type 0 where
  pub job_id : ℕ
  pub account_id : ℕ
  pub chunk_size : ℕ
  pub low_watermark : ℕ
  pub queue : List BufferedCandidate
  pub last_loaded : Option ℕ
  pub loading : Option (List PendingRow)
  pub exhausted : Bool

unfoldable pub init : ℕ → ℕ → ℕ → CandidateBuffer
init job_id account_id chunk_size =
    let size = max candidate_prefetch_min (min candidate_prefetch_max chunk_size) in
    record {
      job_id = job_id;
      account_id = account_id;
      chunk_size = size;
      low_watermark = max 50 (size / 4);
      queue = [];
      last_loaded = none;
      loading = none;
      exhausted = false;
    }

unfoldable pub submit_fill : CandidateBuffer → Database → CandidateBuffer
submit_fill b db = if is_some b.loading || b.exhausted then b else record b {
  loading = some (pending_chunk b.job_id b.account_id b.last_loaded b.chunk_size db);
}

unfoldable pub to_candidate : PendingRow → BufferedCandidate
to_candidate row = record {
  ordinal = row.item.ordinal;
  member = record {
    telegram_user_id = row.member.telegram_user_id;
    username = row.member.username;
    first_name = row.member.first_name;
    last_name = row.member.last_name;
    phone = row.member.phone;
    bot = row.member.bot;
    deleted = row.member.deleted;
    activity_status = row.member.activity_status;
    last_seen = row.member.last_seen;
    access_hash = row.account_access_hash;
  };
  persisted_attempts = row.item.attempt_count;
}

-- `int(rows[-1]["ordinal"])` of the rows `row ∷ rows`
last_ordinal : PendingRow → List PendingRow → ℕ
last_ordinal row [] = row.item.ordinal
last_ordinal row (next ∷ rows) = last_ordinal next rows

receive : CandidateBuffer → List PendingRow → CandidateBuffer
receive b [] = record b { loading = none; exhausted = true }
receive b (row ∷ rows) = record b {
  loading = none;
  queue = b.queue ++ map to_candidate (row ∷ rows);
  last_loaded = some (last_ordinal row rows);
}

-- What `_finish_fill` does when the future is done.
unfoldable pub finish_fill : CandidateBuffer → Database → CandidateBuffer
unfolding submit_fill receive to_candidate last_ordinal
finish_fill b db =
    let b' = submit_fill b db in elim b'.loading [ none ↦ b' | some rows ↦ receive b' rows ]

is_empty : List BufferedCandidate → Bool
is_empty [] = true
is_empty (c ∷ cs) = false

unfoldable pub prime : CandidateBuffer → Database → CandidateBuffer
unfolding finish_fill is_empty
prime b db = elim (is_empty b.queue) [
  | true ↦ elim b.exhausted [ true ↦ b | false ↦ finish_fill b db ]
  | false ↦ b
]

-- The first half of `pop`: an empty queue waits for the next chunk.
unfoldable pub fill_if_empty : CandidateBuffer → Database → CandidateBuffer
unfolding finish_fill is_empty
fill_if_empty b db = elim (is_empty b.queue) [ true ↦ finish_fill b db | false ↦ b ]

after_take : CandidateBuffer → Database → CandidateBuffer
unfolding submit_fill
after_take b db = if leb (length b.queue) b.low_watermark then submit_fill b db else b

take_front :
    CandidateBuffer → List BufferedCandidate → Database → CandidateBuffer × Option BufferedCandidate
unfolding after_take
take_front b [] db = (b, none)
take_front b (item ∷ rest) db = (after_take (record b { queue = rest }) db, some item)

unfoldable pub pop : CandidateBuffer → Database → CandidateBuffer × Option BufferedCandidate
unfolding fill_if_empty take_front
pop b db = let b' = fill_if_empty b db in take_front b' b'.queue db
