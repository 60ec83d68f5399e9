-- ===== src/Members.antt =====
-- src/tms/members: models.py and filter_spec.py.
pub mod Repository
use telegramv.Prelude.{ℤ, ℕ, Bool, true, false, Option, none, some, Text, List, [], ◌∷◌}

pub record Member : Type 0 where
  pub telegram_user_id : Option ℕ
  pub username : Option Text
  pub first_name : Option Text
  pub last_name : Option Text
  pub phone : Option Text
  pub bot : Bool
  pub deleted : Bool
  pub activity_status : Option Text
  pub last_seen : Option Text
  pub access_hash : Option ℤ

-- members/filter_spec.py; the sets are lists.
pub record FilterSpec : Type 0 where
  pub exclude_bot : Bool
  pub exclude_deleted : Bool
  pub username_required : Bool
  pub activity : List Text
  pub source : List Text
  pub exclude_processed : List ℕ
  pub exclude_target : List ℕ

abbrev pub default_spec : FilterSpec
default_spec = record {
  exclude_bot = true;
  exclude_deleted = true;
  username_required = false;
  activity = [];
  source = [];
  exclude_processed = [];
  exclude_target = [];
}

-- The truth of a text or None, and of a set.
abbrev pub has_text : Option Text → Bool
has_text none = false
has_text (some []) = false
has_text (some (c ∷ cs)) = true

abbrev pub is_nonempty {ℓ} : {A : Type ℓ} → List A → Bool
is_nonempty [] = false
is_nonempty (x ∷ xs) = true
