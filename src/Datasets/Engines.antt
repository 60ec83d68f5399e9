-- ===== src/Datasets/Engines.antt =====
-- src/tms/datasets/merge_engine.py, intersection_engine.py and difference_engine.py; a set is the
-- list of its elements, each once.
use telegramv.Prelude.{ℕ, not, List, [], ◌∷◌, ◌++◌, if◌then◌else◌, select, contains}

-- `set(xs)`, which is also what GROUP BY leaves of a column
unfoldable pub distinct : List ℕ → List ℕ
distinct [] = []
distinct (x ∷ xs) = let rest = distinct xs in if contains rest x then rest else x ∷ rest

unfoldable pub union : List ℕ → List ℕ → List ℕ
unfolding distinct
union a b = distinct (a ++ b)

unfoldable pub intersection : List ℕ → List ℕ → List ℕ
unfolding distinct
intersection a b = distinct (select (contains b) a)

unfoldable pub difference : List ℕ → List ℕ → List ℕ
unfolding distinct
difference a b = distinct (select (λ x. not (contains b x)) a)
