-- ===== src/Runtime/EventAggregator.antt =====
-- src/tms/runtime/event_aggregator.py. `str` of a value in a payload is an argument.
pub mod Coalesce
use telegramv.Prelude.{
  ℕ, ◌+◌, ◌-◌, Bool, List, [], ◌∷◌, ◌++◌, Option, none, some, String, codes, starts_with, str_eq,
  if◌then◌else◌, length, drop,
}
use telegramv.Prelude.Maps.{lookup, assign, values}
use mathlib.Core.List.{reverse}
use telegramv.Core.{DomainEvent}

-- `deque(maxlen=max_recent)` after an append
unfoldable pub keep_last {ℓ} : {A : Type ℓ} → ℕ → List A → List A
keep_last max_recent xs = drop (length xs - max_recent) xs

-- `name.endswith("Progress")`
unfoldable pub is_progress : String → Bool
is_progress name = starts_with (reverse (codes "Progress")) (reverse (codes name))

-- `_events` and `_latest_progress`
pub record Aggregator (V : Type 0) : Type 0 where
  pub max_recent : ℕ
  pub events : List (DomainEvent V)
  pub latest_progress : List (String × DomainEvent V)

module _ {V : Type 0} where
  unfoldable pub init : ℕ → Aggregator V
  init max_recent = record { max_recent = max_recent; events = []; latest_progress = [] }

  -- `str(event.payload.get("job_id", event.name))`
  unfoldable pub progress_key : (V → String) → DomainEvent V → String
  progress_key str event = elim (lookup str_eq "job_id" event.payload) [
    | none ↦ event.name
    | some value ↦ str value
  ]

  unfoldable pub push : (V → String) → DomainEvent V → Aggregator V → Aggregator V
  unfolding is_progress progress_key keep_last
  push str event a =
      if is_progress event.name
      then record a {
        latest_progress = assign str_eq (progress_key str event) event a.latest_progress;
      }
      else record a { events = keep_last a.max_recent (a.events ++ event ∷ []) }

  unfoldable pub drain : Aggregator V → Aggregator V × List (DomainEvent V)
  drain a =
      (record a { events = []; latest_progress = [] }, a.events ++ values str_eq a.latest_progress)

  unfoldable pub push_all : (V → String) → List (DomainEvent V) → Aggregator V → Aggregator V
  unfolding push
  push_all str [] a = a
  push_all str (event ∷ events) a = push_all str events (push str event a)
