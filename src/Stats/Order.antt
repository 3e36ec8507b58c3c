-- ===== src/Stats/Order.antt =====
-- The order of the days in a snapshot (pkg/fscache/stats.go): `sort.Strings` sorts, and keeps the keys.
use mathlib.Core.List.{reverse-cons}
use go_aptcacher.Base.{
  suc, ◌≡◌, refl, ap, ◌∙◌, true, false, List, [], ◌∷◌, reverse, arith, inl, inr, Bool-cases, length,
  All, All-reverse, length-append,
}
use go_aptcacher.Base.Text.{Text}
use go_aptcacher.Stats.Day.{text_le, insert_sorted, sort}

pub text_le_total : (s t : Text) → text_le s t ≡ false → text_le t s ≡ true
unfolding text_le
text_le_total [] t h = cc
text_le_total (x ∷ s) [] h = refl
text_le_total (x ∷ s) (y ∷ t) h = ground (arith, text_le_total s t)

pub text_le_trans : (s t u : Text) → text_le s t ≡ true → text_le t u ≡ true → text_le s u ≡ true
unfolding text_le
text_le_trans [] t u h k = refl
text_le_trans (x ∷ s) [] u h k = cc
text_le_trans (x ∷ s) (y ∷ t) [] h k = cc
text_le_trans (x ∷ s) (y ∷ t) (z ∷ u) h k = ground (arith, text_le_trans s t u)

-- Each day comes before the later ones.
abbrev pub Ascending : List Text → Type 0
Ascending [] = Unit
Ascending (s ∷ ts) = All (λ t. text_le s t ≡ true) ts × Ascending ts

All-le-insert_sorted :
    (r s : Text) (ts : List Text)
    → text_le r s ≡ true
    → All (λ t. text_le r t ≡ true) ts
    → All (λ t. text_le r t ≡ true) (insert_sorted s ts)
unfolding insert_sorted
All-le-insert_sorted r s [] h a = (h, tt)
All-le-insert_sorted r s (t ∷ ts) h a = elim (Bool-cases (text_le s t)) [
  | inl e ↦ rw e (h, a)
  | inr e ↦ rw e (a.0, All-le-insert_sorted r s ts h a.1)
]

All-le_trans :
    (r s : Text) (ts : List Text)
    → text_le r s ≡ true
    → All (λ t. text_le s t ≡ true) ts
    → All (λ t. text_le r t ≡ true) ts
All-le_trans r s [] h a = tt
All-le_trans r s (t ∷ ts) h a = (text_le_trans r s t h a.0, All-le_trans r s ts h a.1)

insert_sorted-Ascending :
    (s : Text) (ts : List Text) → Ascending ts → Ascending (insert_sorted s ts)
unfolding insert_sorted
insert_sorted-Ascending s [] a = (tt, tt)
insert_sorted-Ascending s (t ∷ ts) a = elim (Bool-cases (text_le s t)) [
  | inl e ↦ rw e ((e, All-le_trans s t ts e a.0), a)
  | inr e ↦
      rw e (All-le-insert_sorted t s ts (text_le_total s t e) a.0, insert_sorted-Ascending s ts a.1)
]

pub sort-Ascending : (ts : List Text) → Ascending (sort ts)
unfolding sort
sort-Ascending [] = tt
sort-Ascending (t ∷ ts) = insert_sorted-Ascending t (sort ts) (sort-Ascending ts)

length-insert_sorted : (s : Text) (ts : List Text) → length (insert_sorted s ts) ≡ suc (length ts)
unfolding insert_sorted
length-insert_sorted s [] = refl
length-insert_sorted s (t ∷ ts) = elim (Bool-cases (text_le s t)) [
  | inl e ↦ rw e
  | inr e ↦ rw e (ap suc (length-insert_sorted s ts))
]

pub length-sort : (ts : List Text) → length (sort ts) ≡ length ts
unfolding sort
length-sort [] = refl
length-sort (t ∷ ts) = length-insert_sorted t (sort ts) ∙ ap suc (length-sort ts)

pub All-insert_sorted {κ} :
    (P : Text → Type κ) (s : Text) (ts : List Text) → P s → All P ts → All P (insert_sorted s ts)
unfolding insert_sorted
All-insert_sorted P s [] p a = (p, tt)
All-insert_sorted P s (t ∷ ts) p a = elim (Bool-cases (text_le s t)) [
  | inl e ↦ rw e (p, a)
  | inr e ↦ rw e (a.0, All-insert_sorted P s ts p a.1)
]

pub All-sort {κ} : (P : Text → Type κ) (ts : List Text) → All P ts → All P (sort ts)
unfolding sort
All-sort P [] a = tt
All-sort P (t ∷ ts) a = All-insert_sorted P t (sort ts) a.0 (All-sort P ts a.1)

length-reverse : (ts : List Text) → length (reverse ts) ≡ length ts
length-reverse [] = refl
length-reverse (t ∷ ts) =
    rw reverse-cons (omega (arith, length-append (reverse ts) (t ∷ []), length-reverse ts))

pub length-reverse-sort : (ts : List Text) → length (reverse (sort ts)) ≡ length ts
length-reverse-sort ts = length-reverse (sort ts) ∙ length-sort ts

pub All-reverse-sort {κ} :
    (P : Text → Type κ) (ts : List Text) → All P ts → All P (reverse (sort ts))
All-reverse-sort P ts a = All-reverse P (sort ts) (All-sort P ts a)
