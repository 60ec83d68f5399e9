-- ===== src/Migration/Executor/Pacing.antt =====
-- The pace of the RPCs: never two within the shortest interval, and none before a deadline that
-- the server has given.
use telegramv.Prelude.{ℕ, ◌+◌, ◌≤◌, ◌≡◌, List, [], ◌∷◌, Option, none, some, arith}
use telegramv.Core.{min_invite_interval, JobState}
use telegramv.Migration.Scheduler.{
  Scheduler, apply_server_wait, mark_attempt, mark_stable_candidate,
}
use telegramv.Migration.Scheduler.Cadence.{
  IsValid, Paced, Due, wait-IsValid, attempt-IsValid, stable-IsValid,
}
use telegramv.Migration.Machine.{Effect}
use telegramv.Migration.Executor.Quiet.{IsQuiet}

-- The newest RPC of a trace, if any, is at least the shortest interval before `t`.
abbrev pub SinceLast : ℕ → List Effect → Type 0
SinceLast t [] = Unit
SinceLast t (Effect.rpc t' ordinal ∷ older) = t' + min_invite_interval ≤ t
SinceLast t (_ ∷ older) = SinceLast t older

-- Every deadline of the server that a trace announces is over at `t`, a time of the wall clock.
abbrev pub AfterWaits : ℕ → List Effect → Type 0
AfterWaits t [] = Unit
AfterWaits t (Effect.job_changed job_id state (some until) ∷ older) =
    (until ≤ t) × AfterWaits t older
AfterWaits t (_ ∷ older) = AfterWaits t older

-- Each RPC of a trace, whose newest entry stands first, comes after the RPC before it by the
-- shortest interval at least, and after every deadline announced before it.
abbrev pub IsPaced : ℕ → List Effect → Type 0
IsPaced base [] = Unit
IsPaced base (Effect.rpc t ordinal ∷ older) =
    SinceLast t older × AfterWaits (base + t) older × IsPaced base older
IsPaced base (_ ∷ older) = IsPaced base older

-- The scheduler's last attempt is no earlier than the newest RPC.
abbrev NoLater : ℕ → Option ℕ → Type 0
NoLater t none = ⊥
NoLater t (some last) = t ≤ last

abbrev Recorded : Option ℕ → List Effect → Type 0
Recorded last [] = Unit
Recorded last (Effect.rpc t ordinal ∷ older) = NoLater t last
Recorded last (_ ∷ older) = Recorded last older

pub record Inv (base : ℕ) (s : Scheduler) (trace : List Effect) : Type 0 where
  pub valid : IsValid s
  pub paced : IsPaced base trace
  pub recorded : Recorded s.last_attempt trace
  pub announced : AfterWaits (base + s.server_wait_until) trace

AfterWaits-mono : (a b : ℕ) (trace : List Effect) → a ≤ b → AfterWaits a trace → AfterWaits b trace
AfterWaits-mono a b [] h k = tt
AfterWaits-mono a b (Effect.rpc t o ∷ older) h k = AfterWaits-mono a b older h k
AfterWaits-mono a b (Effect.account_changed i s e ∷ older) h k = AfterWaits-mono a b older h k
AfterWaits-mono a b (Effect.job_changed i s none ∷ older) h k = AfterWaits-mono a b older h k
AfterWaits-mono a b (Effect.job_changed i s (some u) ∷ older) h k =
    (omega arith, AfterWaits-mono a b older h k.1)
AfterWaits-mono a b (Effect.item_completed i o s d ∷ older) h k = AfterWaits-mono a b older h k
AfterWaits-mono a b (Effect.migration_completed i s ∷ older) h k = AfterWaits-mono a b older h k

NoLater-SinceLast :
    (last : Option ℕ) (interval t t' : ℕ)
    → min_invite_interval ≤ interval
    → Paced last interval t
    → NoLater t' last
    → t' + min_invite_interval ≤ t
NoLater-SinceLast none interval t t' i p r = absurd r
NoLater-SinceLast (some last) interval t t' i p r = omega arith

Recorded-SinceLast :
    (last : Option ℕ) (interval t : ℕ) (trace : List Effect)
    → min_invite_interval ≤ interval
    → Paced last interval t
    → Recorded last trace
    → SinceLast t trace
Recorded-SinceLast last interval t [] i p r = tt
Recorded-SinceLast last interval t (Effect.rpc t' o ∷ older) i p r =
    NoLater-SinceLast last interval t t' i p r
Recorded-SinceLast last interval t (_ ∷ older) i p r =
    Recorded-SinceLast last interval t older i p r

pub Inv-quiet :
    (base : ℕ) (s : Scheduler) (e : Effect) (trace : List Effect)
    → IsQuiet e
    → Inv base s trace
    → Inv base s (e ∷ trace)
Inv-quiet base s (Effect.rpc t o) trace q h = absurd q
Inv-quiet base s (Effect.job_changed i j (some u)) trace q h = absurd q
Inv-quiet base s _ trace q h = record {
  valid = h.valid;
  paced = h.paced;
  recorded = h.recorded;
  announced = h.announced;
}

-- The executor announces the deadline that the scheduler then keeps.
pub Inv-announce :
    (base : ℕ) (s : Scheduler) (job_id : ℕ) (state : JobState) (until : ℕ) (trace : List Effect)
    → until ≤ base + s.server_wait_until
    → Inv base s trace
    → Inv base s (Effect.job_changed job_id state (some until) ∷ trace)
Inv-announce base s job_id state until trace le h = record {
  valid = h.valid;
  paced = h.paced;
  recorded = h.recorded;
  announced = (le, h.announced);
}

pub Inv-apply_server_wait :
    (base : ℕ) (s : Scheduler) (now duration : ℕ) (trace : List Effect)
    → Inv base s trace
    → Inv base (apply_server_wait s now duration) trace
unfolding apply_server_wait
Inv-apply_server_wait base s now duration trace h = record {
  valid = wait-IsValid s now duration h.valid;
  paced = h.paced;
  recorded = h.recorded;
  announced = AfterWaits-mono _ _ trace (omega arith) h.announced;
}

-- An RPC at a time that is due.
pub Inv-rpc :
    (base : ℕ) (s : Scheduler) (now ordinal : ℕ) (trace : List Effect)
    → Due s now
    → Inv base s trace
    → Inv base (mark_attempt s now) (Effect.rpc now ordinal ∷ trace)
unfolding mark_attempt
Inv-rpc base s now ordinal trace due h = record {
  valid = attempt-IsValid s now h.valid;
  paced = (
    Recorded-SinceLast s.last_attempt s.interval now trace h.valid.current.0 due.1 h.recorded,
    AfterWaits-mono (base + s.server_wait_until) (base + now) trace (omega (arith, due.0))
        h.announced,
    h.paced,
  );
  recorded = omega arith;
  announced = h.announced;
}

stable_kept :
    (s : Scheduler) (now : ℕ)
    → ((mark_stable_candidate s now).last_attempt ≡ s.last_attempt)
      × ((mark_stable_candidate s now).server_wait_until ≡ s.server_wait_until)
unfolding mark_stable_candidate
stable_kept s now = ground arith

pub Inv-stable :
    (base : ℕ) (s : Scheduler) (now : ℕ) (trace : List Effect)
    → Inv base s trace
    → Inv base (mark_stable_candidate s now) trace
Inv-stable base s now trace h = record {
  valid = stable-IsValid s now h.valid;
  paced = h.paced;
  recorded = rw ((stable_kept s now).0) h.recorded;
  announced = rw ((stable_kept s now).1) h.announced;
}
