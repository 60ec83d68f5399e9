-- ===== src/Telegram/ParticipantScanner/Run.antt =====
-- `scan` of src/tms/telegram/participant_scanner.py: the consumer's loop and what stands around it.
use telegramv.Prelude.{
  ℕ, pos, Bool, true, false, List, [], ◌∷◌, ◌++◌, none, some, String, string_append, show,
  if◌then◌else◌,
}
use telegramv.Core.{JobState}
use telegramv.Storage.{Database, Json, JsonValue, Message}
use telegramv.Members.{Member}
use telegramv.Jobs
use telegramv.Jobs.{StateOptions}
use telegramv.Telegram.PeerCache.{Memory}
use telegramv.Telegram.ParticipantScanner.{
  ScanCheckpoint, PageEnvelope, envelopes, Consumer, take_page, is_full, Scan, Store, persist_batch,
  checkpoint_json,
}

-- The consumer after one page, whose batch is stored where it is large enough.
unfoldable pub after_page : Scan → PageEnvelope → Consumer → Store → Consumer × Store × Bool
unfolding take_page is_full persist_batch
after_page scan envelope c s =
    let c' = take_page envelope c in
    let (s', ok) = persist_batch scan c'.batch c'.batch_offset s in
    if is_full c' then (record c' { batch = [] }, s', ok) else (c', s, true)

-- `consumer` up to the end of the queue; it stops at a batch that is not stored.
unfoldable pub consume : Scan → List PageEnvelope → Consumer → Store → Consumer × Store × Bool
unfolding after_page
consume scan [] c s = (c, s, true)
consume scan (envelope ∷ envelopes) c s =
    let (c', s', ok) = after_page scan envelope c s in
    let rest = consume scan envelopes c' s' in if ok then rest else (c', s', false)

-- How the producer ends: with the sentinel behind the pages, or with an exception, at which the task
-- group cancels the consumer.
pub data Ending : Type 0 where
  drained failed : Ending

-- The last batch.
unfoldable pub last_batch : Scan → Ending → Consumer × Store × Bool → Store × Bool
unfolding persist_batch
last_batch scan Ending.failed (c, s, ok) = (s, false)
last_batch scan Ending.drained (c, s, false) = (s, false)
last_batch scan Ending.drained (c, s, true) = persist_batch scan c.batch c.batch_offset s

abbrev with_checkpoint : Json → StateOptions
with_checkpoint checkpoint = record {
  waiting_until = none;
  checkpoint = some checkpoint;
  clear_waiting = false;
}

-- Up to the start of the tasks.
begin : Scan → ℕ → ScanCheckpoint → Memory → Database → Store
begin scan now cp memory db = record {
  db =
      Jobs.add_event scan.job_id "INFO" "SCAN_STARTED"
        (some (Message.message_text (string_append "offset=" (show cp.offset)))) none
        (Jobs.set_state scan.job_id JobState.running
          (with_checkpoint (
            ("offset", JsonValue.number (pos cp.offset))
            ∷ ("accepted", JsonValue.number (pos cp.accepted))
            ∷ []))
          now db);
  memory = memory;
  checkpoint = cp;
  progress = [];
}

abbrev totals : ScanCheckpoint → String
totals cp = string_append "accepted=" (
    string_append (show cp.accepted) (
      string_append " invalid="
        (string_append (show cp.invalid) (string_append " offset=" (show cp.offset)))))

-- The text of the ExceptionGroup that a task group raises.
abbrev group_error : String
group_error = "unhandled errors in a TaskGroup (1 sub-exception)"

-- What follows the task group.
close : Scan → ℕ → Bool → Store × Bool → Store × Bool
close scan now cancelled (s, true) =
    let cp = record s.checkpoint { cancelled = cancelled } in
    (
      record s {
        checkpoint = cp;
        db =
            Jobs.add_event scan.job_id "INFO"
              (if cancelled then "SCAN_CANCELLED" else "SCAN_COMPLETED")
              (some (Message.message_text (totals cp))) none
              (Jobs.set_state scan.job_id
                (if cancelled then JobState.cancelled else JobState.completed)
                (with_checkpoint (checkpoint_json cp)) now s.db);
      },
      true,
    )
close scan now cancelled (s, false) = (
  record s {
    db =
        Jobs.add_event scan.job_id "ERROR" "SCAN_FAILED" (some (Message.message_text group_error))
          none
          (Jobs.set_state scan.job_id JobState.failed
            (with_checkpoint
              (checkpoint_json s.checkpoint ++ ("error", JsonValue.text group_error) ∷ []))
            now s.db);
  },
  false,
)

abbrev pub idle : ℕ → Consumer
idle offset = record { seen = []; batch = []; batch_offset = offset }

-- `scan`, and whether it returns; it begins and ends at two times.
unfoldable pub scan :
    Scan
    → ℕ
    → ℕ
    → ScanCheckpoint
    → List (List Member)
    → Ending
    → Bool
    → Memory
    → Database
    → Store × Bool
unfolding envelopes consume last_batch begin close
scan what began ended cp pages ending cancelled memory db = close what ended cancelled (
    last_batch what ending
      (consume what (envelopes cp.offset pages) (idle cp.offset) (begin what began cp memory db)))
