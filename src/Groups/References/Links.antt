-- ===== src/Groups/References/Links.antt =====
-- src/tms/groups/service.py: the hash of an invite, in the links that Telegram gives.
use telegramv.Prelude.{
  ℕ, ◌≡◌, refl, ◌∙◌, ap, Bool, true, false, not, ◌&&◌, [], ◌∷◌, ◌++◌, some, Text, codes, strip,
  lstrip, is_space, arith,
}
use mathlib.Core.List.{reverse, reverse-reverse, reverse_aux}
use telegramv.Groups.References.{
  is_token, token_prefix, invite_hash, search, invite_here, after_host, behind, either,
}

-- Every character passes the test.
unfoldable pub every : (ℕ → Bool) → Text → Bool
every p [] = true
every p (c ∷ cs) = p c && every p cs

abbrev is_solid : ℕ → Bool
is_solid c = not (is_space c)

solid_token : (c : ℕ) → is_token c ≡ true → is_solid c ≡ true
unfolding is_token
solid_token c h = ground arith

every_token : (cs : Text) → every is_token cs ≡ true → every is_solid cs ≡ true
unfolding every
every_token [] h = refl
every_token (c ∷ cs) h =
    let first : is_token c ≡ true = ground arith in
    let rest : every is_token cs ≡ true = ground arith in
    rw (solid_token c first) (every_token cs rest)

every-reverse_aux :
    (p : ℕ → Bool) (xs ys : Text)
    → every p xs ≡ true
    → every p ys ≡ true
    → every p (reverse_aux xs ys) ≡ true
unfolding every
every-reverse_aux p [] ys h k = k
every-reverse_aux p (x ∷ xs) ys h k =
    let first : p x ≡ true = ground arith in
    let rest : every p xs ≡ true = ground arith in every-reverse_aux p xs (x ∷ ys) rest (rw first k)

lstrip_solid : (cs : Text) → every is_solid cs ≡ true → lstrip is_space cs ≡ cs
unfolding lstrip every
lstrip_solid [] h = refl
lstrip_solid (c ∷ cs) h = let first : is_space c ≡ false = ground arith in rw first refl

strip_solid : (cs : Text) → every is_solid cs ≡ true → strip cs ≡ cs
unfolding strip every
strip_solid cs h =
    ap (λ text. reverse (lstrip is_space (reverse text))) (lstrip_solid cs h)
    ∙ ap reverse (lstrip_solid (reverse cs) (every-reverse_aux is_solid cs [] h refl))
    ∙ reverse-reverse cs

token_prefix_all : (cs : Text) → every is_token cs ≡ true → token_prefix cs ≡ cs
unfolding token_prefix every
token_prefix_all [] h = refl
token_prefix_all (c ∷ cs) h =
    let first : is_token c ≡ true = ground arith in
    let rest : every is_token cs ≡ true = ground arith in rw (first, token_prefix_all cs rest) refl

search_link :
    (c : ℕ) (cs : Text)
    → every is_token (c ∷ cs) ≡ true
    → (search (codes "https://t.me/+" ++ c ∷ cs) ≡ some (c ∷ cs))
      × (search (codes "https://t.me/joinchat/" ++ c ∷ cs) ≡ some (c ∷ cs))
unfolding search invite_here after_host behind either
search_link c cs h = rw (token_prefix_all (c ∷ cs) h) (refl, refl)

-- The hash of an invite link, in its short form and in its old one, is the token that the link was
-- made of, if it is not empty and has the characters of a token only.
pub invite_hash_link :
    (c : ℕ) (cs : Text)
    → every is_token (c ∷ cs) ≡ true
    → (invite_hash (codes "https://t.me/+" ++ c ∷ cs) ≡ some (c ∷ cs))
      × (invite_hash (codes "https://t.me/joinchat/" ++ c ∷ cs) ≡ some (c ∷ cs))
unfolding invite_hash every
invite_hash_link c cs h =
    let solid : every is_solid (c ∷ cs) ≡ true = every_token (c ∷ cs) h in
    (
      ap search (strip_solid (codes "https://t.me/+" ++ c ∷ cs) solid) ∙ (search_link c cs h).0,
      ap search (strip_solid (codes "https://t.me/joinchat/" ++ c ∷ cs) solid)
          ∙ (search_link c cs h).1,
    )
