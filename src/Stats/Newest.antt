-- ===== src/Stats/Newest.antt =====
-- Which days a snapshot (pkg/fscache/stats.go) takes of the sorted ones.
use mathlib.Core.List.{reverse-cons, Memᴰ}
use mathlib.Core.List.Memᴰ.{head, tail}
use go_aptcacher.Base.{
  ℕ, zero, suc, ◌≡◌, refl, sym, ◌∙◌, ◌⊎◌, inl, inr, true, false, List, [], ◌∷◌, ◌++◌, reverse, take,
  All, All-append, All-reverse, Bool-cases,
}
use go_aptcacher.Base.Text.{Text, text_eq, text_eq_comm}
use go_aptcacher.Base.Map.{Absent, Distinct}
use go_aptcacher.Stats.Day.{text_le, insert_sorted, sort}
use go_aptcacher.Stats.Order.{Ascending, All-sort, sort-Ascending}

-- A text is smaller than another one.
abbrev pub Earlier : Text → Text → Type 0
Earlier s t = (text_le s t ≡ true) × (text_eq s t ≡ false)

-- The newest day first, and none twice.
abbrev pub NewestFirst : List Text → Type 0
NewestFirst [] = Unit
NewestFirst (s ∷ ts) = All (λ t. Earlier t s) ts × NewestFirst ts

Absent-All : (s : Text) (ts : List Text) → Absent s ts → All (λ t. text_eq s t ≡ false) ts
Absent-All s [] a = tt
Absent-All s (t ∷ ts) a = (a.0, Absent-All s ts a.1)

insert_sorted-Absent :
    (r s : Text) (ts : List Text)
    → text_eq r s ≡ false
    → Absent r ts
    → Absent r (insert_sorted s ts)
unfolding insert_sorted
insert_sorted-Absent r s [] h a = (h, tt)
insert_sorted-Absent r s (t ∷ ts) h a = elim (Bool-cases (text_le s t)) [
  | inl e ↦ rw e (h, a)
  | inr e ↦ rw e (a.0, insert_sorted-Absent r s ts h a.1)
]

insert_sorted-Distinct :
    (s : Text) (ts : List Text) → Absent s ts → Distinct ts → Distinct (insert_sorted s ts)
unfolding insert_sorted
insert_sorted-Distinct s [] a d = (tt, tt)
insert_sorted-Distinct s (t ∷ ts) a d = elim (Bool-cases (text_le s t)) [
  | inl e ↦ rw e (a, d)
  | inr e ↦ rw e (
    insert_sorted-Absent t s ts (text_eq_comm t s ∙ a.0) d.0,
    insert_sorted-Distinct s ts a.1 d.1,
  )
]

sort-Absent : (r : Text) (ts : List Text) → Absent r ts → Absent r (sort ts)
unfolding sort
sort-Absent r [] a = tt
sort-Absent r (t ∷ ts) a = insert_sorted-Absent r t (sort ts) a.0 (sort-Absent r ts a.1)

sort-Distinct : (ts : List Text) → Distinct ts → Distinct (sort ts)
unfolding sort
sort-Distinct [] d = tt
sort-Distinct (t ∷ ts) d =
    insert_sorted-Distinct t (sort ts) (sort-Absent t ts d.0) (sort-Distinct ts d.1)

NewestFirst-concat :
    (s : Text) (ts : List Text)
    → NewestFirst ts
    → All (λ t. Earlier s t) ts
    → NewestFirst (ts ++ s ∷ [])
NewestFirst-concat s [] d a = (tt, tt)
NewestFirst-concat s (t ∷ ts) d a =
    (All-append (λ r. Earlier r t) ts (s ∷ []) d.0 (a.0, tt), NewestFirst-concat s ts d.1 a.1)

All-both :
    (s : Text) (ts : List Text)
    → All (λ t. text_le s t ≡ true) ts
    → Absent s ts
    → All (λ t. Earlier s t) ts
All-both s [] a b = tt
All-both s (t ∷ ts) a b = ((a.0, b.0), All-both s ts a.1 b.1)

reverse-NewestFirst : (ts : List Text) → Ascending ts → Distinct ts → NewestFirst (reverse ts)
reverse-NewestFirst [] a d = tt
reverse-NewestFirst (t ∷ ts) a d = rw reverse-cons (
    NewestFirst-concat t (reverse ts) (reverse-NewestFirst ts a.1 d.1)
      (All-reverse (λ r. Earlier t r) ts (All-both t ts a.0 d.0)))

pub reverse-sort-NewestFirst : (ts : List Text) → Distinct ts → NewestFirst (reverse (sort ts))
reverse-sort-NewestFirst ts d =
    reverse-NewestFirst (sort ts) (sort-Ascending ts) (sort-Distinct ts d)

All-take : (P : Text → Type 0) (n : ℕ) (ts : List Text) → All P ts → All P (take n ts)
All-take P zero ts a = tt
All-take P (suc n) [] a = tt
All-take P (suc n) (t ∷ ts) a = (a.0, All-take P n ts a.1)

pub NewestFirst-take : (n : ℕ) (ts : List Text) → NewestFirst ts → NewestFirst (take n ts)
NewestFirst-take zero ts a = tt
NewestFirst-take (suc n) [] a = tt
NewestFirst-take (suc n) (t ∷ ts) a =
    (All-take (λ r. Earlier r t) n ts a.0, NewestFirst-take n ts a.1)

-- A day is listed, or is earlier than all that are.
abbrev pub ListedOrEarlier : List Text → Text → Type 0
ListedOrEarlier ds k = Memᴰ k ds ⊎ All (λ d. Earlier k d) ds

All-Mem : (P : Text → Type 0) (k : Text) (ts : List Text) → All P ts → Memᴰ k ts → P k
All-Mem P k [] a m = elim m [ ]
All-Mem P k (t ∷ ts) a (head e) = rw (sym e) at a.0
All-Mem P k (t ∷ ts) a (tail m) = All-Mem P k ts a.1 m

take-ListedOrEarlier :
    (n : ℕ) (ts : List Text)
    → NewestFirst ts
    → (k : Text) → Memᴰ k ts
    → ListedOrEarlier (take n ts) k
take-ListedOrEarlier zero ts a k m = inr tt
take-ListedOrEarlier (suc n) [] a k m = inl m
take-ListedOrEarlier (suc n) (t ∷ ts) a k (head e) = inl (head e)
take-ListedOrEarlier (suc n) (t ∷ ts) a k (tail m) = elim (take-ListedOrEarlier n ts a.1 k m) [
  | inl h ↦ inl (tail h)
  | inr h ↦ inr (All-Mem (λ r. Earlier r t) k ts a.0 m, h)
]

Mem-insert_sorted : (p q : Text) (ps : List Text) → Memᴰ p (q ∷ ps) → Memᴰ p (insert_sorted q ps)
unfolding insert_sorted
Mem-insert_sorted p q [] h = h
Mem-insert_sorted p q (r ∷ ps) h = elim (Bool-cases (text_le q r)) [
  | inl e ↦ rw e h
  | inr e ↦ rw e (elim h [
    | head k ↦ tail (Mem-insert_sorted p q ps (head k))
    | tail (head k) ↦ head k
    | tail (tail k) ↦ tail (Mem-insert_sorted p q ps (tail k))
  ])
]

Mem-sort : (p : Text) (ps : List Text) → Memᴰ p ps → Memᴰ p (sort ps)
unfolding sort
Mem-sort p [] h = h
Mem-sort p (q ∷ ps) (head e) = Mem-insert_sorted p q (sort ps) (head e)
Mem-sort p (q ∷ ps) (tail h) = Mem-insert_sorted p q (sort ps) (tail (Mem-sort p ps h))

Mem-append_right : (p : Text) (xs ys : List Text) → Memᴰ p ys → Memᴰ p (xs ++ ys)
Mem-append_right p [] ys m = m
Mem-append_right p (x ∷ xs) ys m = tail (Mem-append_right p xs ys m)

Mem-append_left : (p : Text) (xs ys : List Text) → Memᴰ p xs → Memᴰ p (xs ++ ys)
Mem-append_left p (x ∷ xs) ys (head e) = head e
Mem-append_left p (x ∷ xs) ys (tail m) = tail (Mem-append_left p xs ys m)
Mem-append_left p [] ys m = elim m [ ]

Mem-reverse : (p : Text) (xs : List Text) → Memᴰ p xs → Memᴰ p (reverse xs)
Mem-reverse p [] m = m
Mem-reverse p (x ∷ xs) (head e) =
    rw reverse-cons (Mem-append_right p (reverse xs) (x ∷ []) (head e))
Mem-reverse p (x ∷ xs) (tail m) =
    rw reverse-cons (Mem-append_left p (reverse xs) (x ∷ []) (Mem-reverse p xs m))

All-ListedOrEarlier :
    (ds ks js : List Text)
    → ((k : Text) → Memᴰ k ks → Memᴰ k js)
    → ((k : Text) → Memᴰ k js → ListedOrEarlier ds k)
    → All (ListedOrEarlier ds) ks
All-ListedOrEarlier ds [] js i h = tt
All-ListedOrEarlier ds (k ∷ ks) js i h =
    (h k (i k (head refl)), All-ListedOrEarlier ds ks js (λ j m. i j (tail m)) h)

-- Each key is among the days that a snapshot takes, or earlier than them.
pub newest-ListedOrEarlier :
    (n : ℕ) (ks : List Text) → Distinct ks → All (ListedOrEarlier (take n (reverse (sort ks)))) ks
newest-ListedOrEarlier n ks d =
    let days = reverse (sort ks) in
    All-ListedOrEarlier (take n days) ks days (λ k m. Mem-reverse k (sort ks) (Mem-sort k ks m))
      (take-ListedOrEarlier n days (reverse-sort-NewestFirst ks d))

-- Each day that a snapshot takes is a key.
pub newest-Mem : (n : ℕ) (ks : List Text) → All (λ k. Memᴰ k ks) (take n (reverse (sort ks)))
newest-Mem n ks =
    All-take (λ k. Memᴰ k ks) n (reverse (sort ks))
      (All-reverse (λ k. Memᴰ k ks) (sort ks)
        (All-sort (λ k. Memᴰ k ks) ks (all_members ks ks (λ k m. m))))
  where
    all_members :
        (js ls : List Text) → ((k : Text) → Memᴰ k js → Memᴰ k ls) → All (λ k. Memᴰ k ls) js
    all_members [] ls i = tt
    all_members (j ∷ js) ls i = (i j (head refl), all_members js ls (λ k m. i k (tail m)))
