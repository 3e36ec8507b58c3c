-- ===== src/Cleaner/Preferred.antt =====
-- The choice of selectPreferredRepositoryChecksums (pkg/debrepocleaner/debrepocleaner.go), against a
-- description by file.
use mathlib.Core.Option.{some-injective}
use mathlib.Core.List.{Memᴰ}
use mathlib.Core.List.Memᴰ.{head, tail}
use go_aptcacher.Base.{
  ◌≡◌, refl, sym, ap, ◌∙◌, ◌↔◌, inl, inr, false, List, [], ◌∷◌, some, Bool-cases, All,
}
use go_aptcacher.Base.Text.{Text, text_eq, text_eq_refl}
use go_aptcacher.Base.Map.{Map, lookup, insert, keys, Absent, Distinct, Distinct-insert}
use go_aptcacher.Stats.Day.{text_le}
use go_aptcacher.Cleaner.Checksum.{
  ChecksumSum, is_better, select_by_file, values, insert_by_file, sort_by_file,
  select_preferred_repository_checksums,
}
use go_aptcacher.Cleaner.Strongest.{strongest, lookup-select_strongest}

-- A map of checksums at the names of their files, each name once.
record ByFile (m : Map ChecksumSum) : Type 0 where
  named : All (λ p. p.0 ≡ p.1.file) m
  distinct : Distinct (keys m)

insert-named :
    (s : ChecksumSum) (m : Map ChecksumSum)
    → All (λ p. p.0 ≡ p.1.file) m
    → All (λ p. p.0 ≡ p.1.file) (insert s.file s m)
unfolding insert
insert-named s [] a = (refl, tt)
insert-named s ((k, v) ∷ m) a = elim (Bool-cases (text_eq k s.file)) [
  | inl e ↦ rw e (refl, a.1)
  | inr e ↦ rw e (a.0, insert-named s m a.1)
]

select_by_file-ByFile :
    (sums : List ChecksumSum) (m : Map ChecksumSum) → ByFile m → ByFile (select_by_file sums m)
unfolding select_by_file
select_by_file-ByFile [] m h = h
select_by_file-ByFile (s ∷ ss) m h = elim (Bool-cases (is_better s (lookup s.file m))) [
  | inl e ↦ rw e (
      select_by_file-ByFile ss (insert s.file s m) (record {
        named = insert-named s m h.named;
        distinct = Distinct-insert s.file s m h.distinct;
      }))
  | inr e ↦ rw e (select_by_file-ByFile ss m h)
]

Mem-values : (s : ChecksumSum) (m : Map ChecksumSum) → lookup s.file m ≡ some s → Memᴰ s (values m)
unfolding values lookup
Mem-values s [] h = absurd (cc h)
Mem-values s ((k, v) ∷ m) h = elim (Bool-cases (text_eq k s.file)) [
  | inl e ↦ head (sym (some-injective v s (rw e at h)))
  | inr e ↦ tail (Mem-values s m (rw e at h))
]

values-Absent :
    (s : ChecksumSum) (m : Map ChecksumSum) (k : Text)
    → All (λ p. p.0 ≡ p.1.file) m
    → Absent k (keys m)
    → Memᴰ s (values m)
    → text_eq k s.file ≡ false
unfolding values keys
values-Absent s [] k a b h = elim h [ ]
values-Absent s ((j, v) ∷ m) k a b (head e) = ap (text_eq k) (ap (λ z. z.file) e ∙ sym a.0) ∙ b.0
values-Absent s ((j, v) ∷ m) k a b (tail h) = values-Absent s m k a.1 b.1 h

lookup-of_Mem :
    (s : ChecksumSum) (m : Map ChecksumSum)
    → ByFile m
    → Memᴰ s (values m)
    → lookup s.file m ≡ some s
unfolding values lookup keys
lookup-of_Mem s [] b h = elim h [ ]
lookup-of_Mem s ((k, v) ∷ m) b (head e) =
    rw (ap (text_eq k) (ap (λ z. z.file) e ∙ sym b.named.0) ∙ text_eq_refl k) (ap some (sym e))
lookup-of_Mem s ((k, v) ∷ m) b (tail h) =
    rw (values-Absent s m k b.named.1 b.distinct.0 h)
      (lookup-of_Mem s m (record { named = b.named.1; distinct = b.distinct.1 }) h)

Mem-cons :
    (r s : ChecksumSum) (xs ys : List ChecksumSum)
    → (Memᴰ r xs → Memᴰ r ys)
    → Memᴰ r (s ∷ xs)
    → Memᴰ r (s ∷ ys)
Mem-cons r s xs ys f (head e) = head e
Mem-cons r s xs ys f (tail h) = tail (f h)

pub Mem-swapped {ℓ} :
    {A : Type ℓ} (r s t : A) (ts xs : List A)
    → (Memᴰ r xs → Memᴰ r (s ∷ ts))
    → Memᴰ r (t ∷ xs)
    → Memᴰ r (s ∷ t ∷ ts)
Mem-swapped r s t ts xs f (head e) = tail (head e)
Mem-swapped r s t ts xs f (tail h) = elim (f h) [ head e ↦ head e | tail k ↦ tail (tail k) ]

Mem-insert_by_file :
    (r s : ChecksumSum) (ss : List ChecksumSum) → Memᴰ r (s ∷ ss) → Memᴰ r (insert_by_file s ss)
unfolding insert_by_file
Mem-insert_by_file r s [] h = h
Mem-insert_by_file r s (t ∷ ts) h = elim (Bool-cases (text_le s.file t.file)) [
  | inl e ↦ rw e h
  | inr e ↦ rw e (elim h [
    | head k ↦ tail (Mem-insert_by_file r s ts (head k))
    | tail (head k) ↦ head k
    | tail (tail k) ↦ tail (Mem-insert_by_file r s ts (tail k))
  ])
]

Mem-of_insert_by_file :
    (r s : ChecksumSum) (ss : List ChecksumSum) → Memᴰ r (insert_by_file s ss) → Memᴰ r (s ∷ ss)
unfolding insert_by_file
Mem-of_insert_by_file r s [] h = h
Mem-of_insert_by_file r s (t ∷ ts) h = elim (Bool-cases (text_le s.file t.file)) [
  | inl e ↦ rw e at h
  | inr e ↦ Mem-swapped r s t ts (insert_by_file s ts) (Mem-of_insert_by_file r s ts) (rw e at h)
]

Mem-sort_by_file : (s : ChecksumSum) (ss : List ChecksumSum) → Memᴰ s (sort_by_file ss) ↔ Memᴰ s ss
unfolding sort_by_file
Mem-sort_by_file s [] = (λ h. h, λ h. h)
Mem-sort_by_file s (t ∷ ts) = (
  λ h.
      Mem-cons s t (sort_by_file ts) ts (Mem-sort_by_file s ts).0
        (Mem-of_insert_by_file s t (sort_by_file ts) h),
  λ h.
      Mem-insert_by_file s t (sort_by_file ts)
        (Mem-cons s t ts (sort_by_file ts) (Mem-sort_by_file s ts).1 h),
)

-- The checksums that are selected are, for each file that has any, its first SHA512 checksum, or its
-- first SHA256 checksum where it has none with SHA512.
pub Mem-select_preferred :
    (sums : List ChecksumSum) (s : ChecksumSum)
    → Memᴰ s (select_preferred_repository_checksums sums) ↔ (strongest s.file sums ≡ some s)
unfolding select_preferred_repository_checksums
Mem-select_preferred sums s =
    let m = select_by_file sums [] in
    let start : ByFile [] = record { named = tt; distinct = unfold keys in tt } in
    let sorted = Mem-sort_by_file s (values m) in
    (
      λ h.
          sym (lookup-select_strongest s.file sums)
          ∙ lookup-of_Mem s m (select_by_file-ByFile sums [] start) (sorted.0 h),
      λ h. sorted.1 (Mem-values s m (lookup-select_strongest s.file sums ∙ h)),
    )
