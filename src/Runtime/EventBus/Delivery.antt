-- ===== src/Runtime/EventBus/Delivery.antt =====
-- Whom src/tms/runtime/event_bus.py calls.
use telegramv.Prelude.{List, [], ◌∷◌, map, String, str_eq, select}
use telegramv.Runtime.EventBus.{Subscriptions, subscribe}

module _ {C : Type 0} where
  unfoldable pub subscribe_all : List (String × C) → Subscriptions C → Subscriptions C
  unfolding subscribe
  subscribe_all [] subs = subs
  subscribe_all ((name, callback) ∷ rest) subs = subscribe_all rest (subscribe name callback subs)

  -- The callbacks that asked for a name, in order.
  abbrev pub asked : String → List (String × C) → List C
  asked name requests = map (λ r. r.1) (select (λ r. str_eq r.0 name) requests)
