-- ===== src/Prelude/Texts.antt =====
-- Python text as its code points, with the operations that the program uses. `lower` is that of
-- ASCII, which is SQLite's `lower`, and Python's on ASCII text.
use Prim.Native.Nat.{ℕ, zero, suc, ◌+◌, ◌/◌, ◌%◌}
use Prim.Native.Char.{code}
use Prim.Native.String.{String, slice, ◌++◌ as string_append}
use mathlib.Core.Bool.{Bool, true, false, ◌&&◌, ◌||◌}
use mathlib.Core.List.{List, [], ◌∷◌, map, reverse}
use mathlib.Core.Logic.{◌↔◌}
use mathlib.Core.Path.{◌≡◌}
use native.Mathlib.Omega.{arith}
use telegramv.Prelude.Tests.{leb, ltb, ◌==◌, if◌then◌else◌}

abbrev pub Text : Type 0
Text = List ℕ

abbrev pub codes : String → Text
codes String.[] = []
codes (String.◌∷◌ c s) = code c ∷ codes s

abbrev pub lower_code : ℕ → ℕ
lower_code c = if leb b'A' c && leb c b'Z' then c + 32 else c

abbrev pub lower : Text → Text
lower = map lower_code

abbrev pub text_eq : Text → Text → Bool
text_eq [] [] = true
text_eq [] (y ∷ ys) = false
text_eq (x ∷ xs) [] = false
text_eq (x ∷ xs) (y ∷ ys) = x == y && text_eq xs ys

pub text_eq_iff : (a b : Text) → (text_eq a b ≡ true) ↔ (a ≡ b)
text_eq_iff [] [] = ground arith
text_eq_iff [] (y ∷ ys) = ground arith
text_eq_iff (x ∷ xs) [] = ground arith
text_eq_iff (x ∷ xs) (y ∷ ys) = ground (arith, text_eq_iff xs ys)

abbrev pub starts_with : Text → Text → Bool
starts_with [] xs = true
starts_with (p ∷ ps) [] = false
starts_with (p ∷ ps) (x ∷ xs) = p == x && starts_with ps xs

-- `needle in text`
unfoldable pub occurs : Text → Text → Bool
occurs needle [] = starts_with needle []
occurs needle (x ∷ xs) = starts_with needle (x ∷ xs) || occurs needle xs

-- `str.isspace` of one character
abbrev pub is_space : ℕ → Bool
is_space c =
    (leb 9 c && leb c 13)
    || (leb 28 c && leb c 32)
    || c == 133
    || c == 160
    || c == 5760
    || (leb 8192 c && leb c 8202)
    || c == 8232
    || c == 8233
    || c == 8239
    || c == 8287
    || c == 12288

unfoldable pub lstrip : (ℕ → Bool) → Text → Text
lstrip drop [] = []
lstrip drop (x ∷ xs) = if drop x then lstrip drop xs else x ∷ xs

unfoldable pub strip : Text → Text
unfolding lstrip
strip xs = reverse (lstrip is_space (reverse (lstrip is_space xs)))

-- `text.split(separator)` for a separator of one character: never an empty list.
split_from : ℕ → Text → Text → List Text
split_from separator word [] = reverse word ∷ []
split_from separator word (x ∷ xs) =
    let next = split_from separator [] xs in
    let same = split_from separator (x ∷ word) xs in
    if x == separator then reverse word ∷ next else same

unfoldable pub split : ℕ → Text → List Text
unfolding split_from
split separator = split_from separator []

abbrev pub text_in : List Text → Text → Bool
text_in [] a = false
text_in (x ∷ xs) a = text_eq x a || text_in xs a

digit : ℕ → String
digit n = slice "0123456789" n (n + 1)

show_from : ℕ → ℕ → String
unfolding digit
show_from zero n = ""
show_from (suc fuel) n =
    let head = show_from fuel (n / 10) in
    if ltb n 10 then digit n else string_append head (digit (n % 10))

-- `str(n)` of an integer that SQLite stores: 2 ^ 63 has 19 digits.
unfoldable pub show : ℕ → String
unfolding show_from
show n = show_from 20 n

-- `strip` of a string
lstrip_string : String → String
lstrip_string String.[] = ""
lstrip_string (String.◌∷◌ c s) =
    let rest = lstrip_string s in if is_space (code c) then rest else String.◌∷◌ c s

reverse_onto : String → String → String
reverse_onto String.[] t = t
reverse_onto (String.◌∷◌ c s) t = reverse_onto s (String.◌∷◌ c t)

unfoldable pub strip_string : String → String
unfolding lstrip_string reverse_onto
strip_string s = reverse_onto (lstrip_string (reverse_onto (lstrip_string s) "")) ""
