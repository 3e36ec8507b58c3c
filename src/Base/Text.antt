-- ===== src/Base/Text.antt =====
-- Go strings as lists of bytes, with the functions of package strings that the sources call.
use Prim.Native.Nat.{ℕ, ◌+◌}
use Prim.Native.Char.{code}
use Prim.Native.String.{String}
use mathlib.Core.Path.{◌≡◌, refl}
use mathlib.Core.Bool.{Bool, true, false, ◌&&◌, ◌||◌}
use mathlib.Core.Logic.{◌↔◌}
use mathlib.Core.List.{List, [], ◌∷◌, ◌++◌, reverse, map}
use mathlib.Core.Option.{Option, none, some}
use native.Mathlib.Omega.{arith}
use mathlib.Core.Logic.{inl, inr}
use go_aptcacher.Base.Tests.{Bool-cases, leb, ◌==◌, if◌then◌else◌}

abbrev pub Text : Type 0
Text = List ℕ

-- The bytes of an ASCII literal.
abbrev pub codes : String → Text
codes String.[] = []
codes (String.◌∷◌ c s) = code c ∷ codes s

unfoldable pub text_eq : Text → Text → Bool
text_eq [] [] = true
text_eq (x ∷ xs) (y ∷ ys) = x == y && text_eq xs ys
text_eq _ _ = false

pub text_eq_iff : (s t : Text) → (text_eq s t ≡ true) ↔ (s ≡ t)
unfolding text_eq
text_eq_iff (x ∷ xs) (y ∷ ys) = ground (arith, text_eq_iff xs ys)
text_eq_iff _ _ = ground arith

pub text_eq_refl : (s : Text) → text_eq s s ≡ true
text_eq_refl s = (text_eq_iff s s).1 refl

pub text_eq_comm : (s t : Text) → text_eq s t ≡ text_eq t s
unfolding text_eq
text_eq_comm (x ∷ s) (y ∷ t) = ground (arith, text_eq_comm s t)
text_eq_comm [] [] = refl
text_eq_comm [] (y ∷ t) = refl
text_eq_comm (x ∷ s) [] = refl

-- `s == ""`
abbrev pub is_empty : Text → Bool
is_empty [] = true
is_empty (x ∷ xs) = false

-- strings.CutPrefix(s, prefix): what follows the prefix, if it is there.
unfoldable pub cut_prefix : Text → Text → Option Text
cut_prefix [] s = some s
cut_prefix (p ∷ ps) [] = none
cut_prefix (p ∷ ps) (c ∷ cs) = if p == c then cut_prefix ps cs else none

-- strings.HasPrefix, with the prefix first.
unfoldable pub has_prefix : Text → Text → Bool
unfolding cut_prefix
has_prefix p s = elim (cut_prefix p s) [ none ↦ false | some rest ↦ true ]

-- strings.HasSuffix, with the suffix first.
unfoldable pub has_suffix : Text → Text → Bool
unfolding has_prefix
has_suffix p s = has_prefix (reverse p) (reverse s)

-- strings.Contains, with the part that is looked for first.
unfoldable pub contains : Text → Text → Bool
unfolding has_prefix
contains p [] = has_prefix p []
contains p (c ∷ cs) = has_prefix p (c ∷ cs) || contains p cs

-- strings.ToLower on ASCII bytes.
unfoldable pub to_lower : Text → Text
to_lower = map (λ c. if leb b'A' c && leb c b'Z' then c + 32 else c)

-- strings.TrimLeftFunc, TrimRightFunc and TrimFunc, for the bytes of a test.
unfoldable pub trim_left : (ℕ → Bool) → Text → Text
trim_left p [] = []
trim_left p (c ∷ cs) = let rest = trim_left p cs in if p c then rest else c ∷ cs

unfoldable pub trim_right : (ℕ → Bool) → Text → Text
trim_right p [] = []
trim_right p (c ∷ cs) = let rest = trim_right p cs in if is_empty rest && p c then [] else c ∷ rest

abbrev pub trim : (ℕ → Bool) → Text → Text
trim p s = trim_right p (trim_left p s)

-- The ASCII spaces of unicode.IsSpace; the texts of the program that are trimmed are ASCII.
abbrev pub is_space : ℕ → Bool
is_space c = c == b' ' || (leb 9 c && leb c 13)

-- strings.TrimSpace
abbrev pub trim_space : Text → Text
trim_space = trim is_space

-- The text does not begin with a byte of the test.
abbrev pub BeginsOutside : (ℕ → Bool) → Text → Type 0
BeginsOutside p [] = Unit
BeginsOutside p (c ∷ cs) = p c ≡ false

pub trim_left-BeginsOutside : (p : ℕ → Bool) (s : Text) → BeginsOutside p (trim_left p s)
unfolding trim_left
trim_left-BeginsOutside p [] = tt
trim_left-BeginsOutside p (c ∷ cs) = elim (Bool-cases (p c)) [
  | inl e ↦ rw e (trim_left-BeginsOutside p cs)
  | inr e ↦ rw e e
]

pub trim_right-BeginsOutside :
    (p : ℕ → Bool) (s : Text) → BeginsOutside p s → BeginsOutside p (trim_right p s)
unfolding trim_right
trim_right-BeginsOutside p [] h = tt
trim_right-BeginsOutside p (c ∷ cs) h = elim (Bool-cases (is_empty (trim_right p cs) && p c)) [
  | inl e ↦ rw e tt
  | inr e ↦ rw e h
]

pub trim-BeginsOutside : (p : ℕ → Bool) (s : Text) → BeginsOutside p (trim p s)
trim-BeginsOutside p s = trim_right-BeginsOutside p (trim_left p s) (trim_left-BeginsOutside p s)

pub cut_prefix-append : (p s : Text) → cut_prefix p (p ++ s) ≡ some s
unfolding cut_prefix
cut_prefix-append [] s = refl
cut_prefix-append (x ∷ p) s = ground (arith, cut_prefix-append p s)

pub cut_prefix_split : (p s : Text) {r : Text} → cut_prefix p s ≡ some r → s ≡ p ++ r
unfolding cut_prefix
cut_prefix_split [] s h = ground arith
cut_prefix_split (x ∷ p) [] h = cc
cut_prefix_split (x ∷ p) (c ∷ s) {r} h = ground (arith, cut_prefix_split p s {r = r})
