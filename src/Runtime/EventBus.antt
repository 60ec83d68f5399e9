-- ===== src/Runtime/EventBus.antt =====
-- src/tms/runtime/event_bus.py. A callback is a value of a type that is an argument, and what a
-- publication comes to is the list of the callbacks that are called; `fails` tells which of them raise.
pub mod Delivery
use telegramv.Prelude.{
  Bool, List, [], ◌∷◌, ◌++◌, Option, none, some, String, str_eq, if◌then◌else◌, or_else,
}
use telegramv.Prelude.Maps.{lookup, assign}

-- `defaultdict(list)`: the callbacks of each event name
abbrev pub Subscriptions : Type 0 → Type 0
Subscriptions C = List (String × List C)

module _ {C : Type 0} where
  unfoldable pub subscribers : String → Subscriptions C → List C
  subscribers name subs = or_else (lookup str_eq name subs) []

  unfoldable pub subscribe : String → C → Subscriptions C → Subscriptions C
  unfolding subscribers
  subscribe event_name callback subs =
      assign str_eq event_name (subscribers event_name subs ++ callback ∷ []) subs

  -- The callbacks up to the first that raises.
  unfoldable pub deliver : (C → Bool) → List C → List C
  deliver fails [] = []
  deliver fails (callback ∷ rest) =
      let others = deliver fails rest in if fails callback then callback ∷ [] else callback ∷ others

  unfoldable pub publish : (C → Bool) → String → Subscriptions C → List C
  unfolding subscribers deliver
  publish fails name subs = deliver fails (subscribers name subs ++ subscribers "*" subs)
