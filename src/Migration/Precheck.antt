-- ===== src/Migration/Precheck.antt =====
-- src/tms/migration/precheck.py. The pages that the gateway yields before it ends or raises are an
-- argument; a set is a list without repetition.
use telegramv.Prelude.{
  ℕ, ◌≡◌, refl, sym, ◌∙◌, subst, Option-cases, Bool, true, false, List, [], ◌∷◌, none, some,
  contains, if◌then◌else◌, arith, Bool-cases, inl, inr, ◌==◌, ◌↔◌, ◌||◌,
}
use telegramv.Core.{TargetCoverage}
use telegramv.Members.{Member, is_nonempty}
use telegramv.Migration.Planner.{PrecheckResult}

-- How the iteration of the pages ends.
pub data Ending : Type 0 where
  finished failed : Ending

add_id : ℕ → List ℕ → List ℕ
add_id uid ids = if contains ids uid then ids else uid ∷ ids

-- `ids.update(…)` with a page
unfoldable pub add_page : List Member → List ℕ → List ℕ
unfolding add_id
add_page [] ids = ids
add_page (member ∷ members) ids =
    add_page members (elim member.telegram_user_id [ none ↦ ids | some uid ↦ add_id uid ids ])

add_pages : List (List Member) → List ℕ → List ℕ
unfolding add_page
add_pages [] ids = ids
add_pages (page ∷ pages) ids = add_pages pages (add_page page ids)

unfoldable pub coverage_of : Ending → List ℕ → TargetCoverage
coverage_of finished ids = TargetCoverage.complete
coverage_of failed ids =
    if is_nonempty ids then TargetCoverage.partial else TargetCoverage.unavailable

unfoldable pub run : List (List Member) → Ending → PrecheckResult
unfolding add_pages coverage_of
run pages ending =
    let ids = add_pages pages [] in record { target_ids = ids; coverage = coverage_of ending ids }

-- The page has a member with the id.
abbrev pub on_page : List Member → ℕ → Bool
on_page [] uid = false
on_page (member ∷ members) uid = elim member.telegram_user_id [
  | none ↦ on_page members uid
  | some id ↦ id == uid || on_page members uid
]

abbrev pub on_pages : List (List Member) → ℕ → Bool
on_pages [] uid = false
on_pages (page ∷ pages) uid = on_page page uid || on_pages pages uid

add_id-contains :
    (id uid : ℕ) (ids : List ℕ) → contains (add_id id ids) uid ≡ (id == uid || contains ids uid)
unfolding add_id
add_id-contains id uid ids = elim (Bool-cases (contains ids id)) [
  | inl e ↦ elim (Bool-cases (id == uid)) [
    | inl k ↦
        let same : id ≡ uid = ground arith in
        let has : contains ids uid ≡ true = subst (λ x. contains ids x ≡ true) same e in
        rw (e, k, has) refl
    | inr k ↦ rw (e, k) refl
  ]
  | inr e ↦ rw e refl
]

or_swap : (a b c : Bool) → (a || (b || c)) ≡ (b || a || c)
or_swap a b c = ground arith

add_page-contains :
    (page : List Member) (ids : List ℕ) (uid : ℕ)
    → contains (add_page page ids) uid ≡ (on_page page uid || contains ids uid)
unfolding add_page
add_page-contains [] ids uid = refl
add_page-contains (member ∷ members) ids uid = elim (Option-cases member.telegram_user_id) [
  | inl e ↦ rw e (add_page-contains members ids uid)
  | inr (id, e) ↦ rw e (
      add_page-contains members (add_id id ids) uid
      ∙ rw (add_id-contains id uid ids)
          (or_swap (on_page members uid) (id == uid) (contains ids uid)))
]

add_pages-contains :
    (pages : List (List Member)) (ids : List ℕ) (uid : ℕ)
    → contains (add_pages pages ids) uid ≡ (on_pages pages uid || contains ids uid)
unfolding add_pages
add_pages-contains [] ids uid = refl
add_pages-contains (page ∷ pages) ids uid =
    add_pages-contains pages (add_page page ids) uid
    ∙ rw (add_page-contains page ids uid)
        (or_swap (on_pages pages uid) (on_page page uid) (contains ids uid))

empty-contains : (ids : List ℕ) (uid : ℕ) → is_nonempty ids ≡ false → contains ids uid ≡ false
empty-contains [] uid h = refl
empty-contains (id ∷ ids) uid h = ground arith

unavailable-empty :
    (ending : Ending) (ids : List ℕ)
    → coverage_of ending ids ≡ TargetCoverage.unavailable
    → is_nonempty ids ≡ false
unfolding coverage_of
unavailable-empty finished ids h = ground arith
unavailable-empty failed ids h = ground arith

complete-finished :
    (ending : Ending) (ids : List ℕ)
    → (coverage_of ending ids ≡ TargetCoverage.complete) ↔ (ending ≡ finished)
unfolding coverage_of
complete-finished finished ids = (λ h. refl, λ h. refl)
complete-finished failed ids = (λ h. ground arith, λ h. ground arith)

-- The pre-check knows exactly the ids on the pages that the gateway yielded, also where it failed
-- later, and the coverage is complete exactly if the iteration ended without an exception.
pub precheck_exact :
    (pages : List (List Member)) (ending : Ending) (uid : ℕ)
    → (contains (run pages ending).target_ids uid ≡ on_pages pages uid)
      × (((run pages ending).coverage ≡ TargetCoverage.complete) ↔ (ending ≡ finished))
unfolding run
precheck_exact pages ending uid =
    (add_pages-contains pages [] uid ∙ ground arith, complete-finished ending (add_pages pages []))

-- Where the coverage is unavailable, no page had an id.
pub unavailable_unseen :
    (pages : List (List Member)) (ending : Ending) (uid : ℕ)
    → (run pages ending).coverage ≡ TargetCoverage.unavailable
    → on_pages pages uid ≡ false
unfolding run
unavailable_unseen pages ending uid h =
    sym (precheck_exact pages ending uid).0
    ∙ empty-contains (add_pages pages []) uid (unavailable-empty ending (add_pages pages []) h)
