-- ===== src/Members/Repository/Paging.antt =====
-- The pages of src/tms/members/repository.py. OFFSET and LIMIT are 0 or more.
use mathlib.Core.Option
use telegramv.Prelude.{
  ℕ, zero, suc, ◌+◌, ◌-◌, ◌<◌, min, max, List, [], ◌∷◌, ◌++◌, map, Option, none, some, ◌==◌, select,
  sort_by, length, take, drop, length-drop, take-drop, drop-drop, drop-length-take, ◌≡◌, refl, sym,
  ◌∙◌, ap, arith, ◌⊎◌, inl, inr, true,
}
use telegramv.Storage.{Database, MemberRow}
use telegramv.Members.{Member, is_nonempty}
use telegramv.Datasets.{member_rows}

-- `_member_from_row`
unfoldable pub member_from_row : MemberRow → Member
member_from_row row = record {
  telegram_user_id = row.telegram_user_id;
  username = row.username;
  first_name = row.first_name;
  last_name = row.last_name;
  phone = row.phone;
  bot = row.bot;
  deleted = row.deleted;
  activity_status = row.activity_status;
  last_seen = row.last_seen;
  access_hash = none;
}

-- The rows that a page is cut from, in order, and their number by COUNT(*).
unfoldable pub page_rows : Option ℕ → Database → List MemberRow × ℕ
page_rows none db = (sort_by (λ row. row.id) db.members, length db.members)
page_rows (some dataset_id) db = (
  member_rows dataset_id db,
  length (select (λ row. row.dataset_id == dataset_id) db.dataset_members),
)

unfoldable pub page : ℕ → ℕ → Option ℕ → Database → List Member × ℕ
unfolding page_rows member_from_row
page offset limit dataset_id db =
    let (rows, total) = page_rows dataset_id db in
    (map member_from_row (take (max 1 (min 1000 limit)) (drop offset rows)), total)

-- A page and those behind it: the iteration ends at an empty page.
yielded : List Member → Option (List (List Member)) → Option (List (List Member))
yielded [] rest = some []
yielded (row ∷ rows) none = none
yielded (row ∷ rows) (some pages) = some ((row ∷ rows) ∷ pages)

-- The pages from an offset on. The fuel bounds their number.
pages_from : ℕ → ℕ → ℕ → ℕ → Database → Option (List (List Member))
unfolding page yielded
pages_from zero offset chunk_size dataset_id db = none
pages_from (suc fuel) offset chunk_size dataset_id db =
    let rows = (page offset chunk_size (some dataset_id) db).0 in
    yielded rows (pages_from fuel (offset + length rows) chunk_size dataset_id db)

-- The pages that `iter_dataset_rows` yields, with fuel for one page for each row and an empty one.
unfoldable pub iter_dataset_rows : ℕ → ℕ → Database → Option (List (List Member))
unfolding pages_from
iter_dataset_rows dataset_id chunk_size db =
    pages_from (suc (length (member_rows dataset_id db))) 0 chunk_size dataset_id db

abbrev pub concat : List (List Member) → List Member
concat [] = []
concat (page ∷ pages) = page ++ concat pages

map-append :
    (xs ys : List MemberRow)
    → map member_from_row (xs ++ ys) ≡ map member_from_row xs ++ map member_from_row ys
map-append [] ys = refl
map-append (x ∷ xs) ys = ap (λ r. member_from_row x ∷ r) (map-append xs ys)

length-map : (xs : List MemberRow) → length (map member_from_row xs) ≡ length xs
length-map [] = refl
length-map (x ∷ xs) = omega (arith, length-map xs)

split_page :
    (n offset : ℕ) (rows : List MemberRow)
    → map member_from_row (take n (drop offset rows))
        ++ map member_from_row
            (drop (offset + length (map member_from_row (take n (drop offset rows)))) rows)
      ≡ map member_from_row (drop offset rows)
split_page n offset rows =
    let r : List MemberRow = drop offset rows in
    let k : ℕ = length (map member_from_row (take n r)) in
    let same : k ≡ length (take n r) = length-map (take n r) in
    let order : offset + k ≡ k + offset = omega arith in
    let behind : drop (offset + k) rows ≡ drop n r =
      ap (λ m. drop m rows) order
      ∙ sym (drop-drop k offset rows)
      ∙ ap (λ m. drop m r) same
      ∙ drop-length-take n r in
    ap (λ l. map member_from_row (take n r) ++ map member_from_row l) behind
    ∙ sym (map-append (take n r) (drop n r))
    ∙ ap (map member_from_row) (take-drop n r)

List-cases :
    (xs : List MemberRow) → (xs ≡ []) ⊎ ((x : MemberRow) × (ys : List MemberRow) × (xs ≡ x ∷ ys))
List-cases [] = inl refl
List-cases (x ∷ xs) = inr (x, xs, refl)

nonempty-length : (page : List Member) → is_nonempty page ≡ true → 0 < length page
nonempty-length [] h = ground arith
nonempty-length (row ∷ rows) h = omega arith

concat-yielded :
    (rows : List Member)
    → is_nonempty rows ≡ true
    → (rest : Option (List (List Member))) (tail : List Member) → Option.map concat rest ≡ some tail
    → Option.map concat (yielded rows rest) ≡ some (rows ++ tail)
unfolding yielded
concat-yielded [] h rest tail e = ground arith
concat-yielded (row ∷ rows) h none tail e = ground arith
concat-yielded (row ∷ rows) h (some pages) tail e = ap (Option.map (λ l. (row ∷ rows) ++ l)) e

all_pages :
    (fuel offset m dataset_id chunk_size : ℕ) (db : Database)
    → max 1 (min 1000 chunk_size) ≡ suc m
    → length (drop offset (member_rows dataset_id db)) < fuel
    → Option.map concat (pages_from fuel offset chunk_size dataset_id db)
      ≡ some (map member_from_row (drop offset (member_rows dataset_id db)))
unfolding pages_from page page_rows
all_pages zero offset m dataset_id chunk_size db size enough = absurd (omega (arith, enough))
all_pages (suc fuel) offset m dataset_id chunk_size db size enough =
    let rows : List MemberRow = member_rows dataset_id db in
    let first : List Member = map member_from_row (take (suc m) (drop offset rows)) in
    elim (List-cases (drop offset rows)) [
      | inl e ↦ rw (size, e) refl
      | inr (x, xs, e) ↦
          let some_rows : is_nonempty first ≡ true = rw e refl in
          let positive : 0 < length (drop offset rows) = rw e (omega arith) in
          let shorter : length (drop (offset + length first) rows) < fuel = omega (
            arith,
            length-drop (offset + length first) rows,
            length-drop offset rows,
            nonempty-length first some_rows,
            enough,
            positive,
          ) in
          rw size (
            concat-yielded first some_rows
              (pages_from fuel (offset + length first) chunk_size dataset_id db)
              (map member_from_row (drop (offset + length first) rows))
              (all_pages fuel (offset + length first) m dataset_id chunk_size db size shorter)
            ∙ ap some (split_page (suc m) offset rows))
    ]

-- The pages of a dataset are its members in the order of their ids, whatever the chunk size: the
-- iteration ends, and no member is left out or yielded twice.
pub iter-member_rows :
    (dataset_id chunk_size : ℕ) (db : Database)
    → Option.map concat (iter_dataset_rows dataset_id chunk_size db)
      ≡ some (map member_from_row (member_rows dataset_id db))
unfolding iter_dataset_rows
iter-member_rows dataset_id chunk_size db =
    all_pages (suc (length (member_rows dataset_id db))) 0 (max 1 (min 1000 chunk_size) - 1)
      dataset_id chunk_size db (omega arith) (omega arith)
