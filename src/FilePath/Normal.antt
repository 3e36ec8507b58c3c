-- ===== src/FilePath/Normal.antt =====
-- What Clean leaves: elements, behind any ".." of a path that is not rooted.
use mathlib.Core.List.{append_assoc, reverse-cons}
use go_aptcacher.Base.{
  ℕ, ◌≡◌, refl, sym, ap, ◌∙◌, ◌⊎◌, inl, inr, Bool, true, false, ◌||◌, List, [], ◌∷◌, ◌++◌, reverse,
  arith, ◌==◌, Bool-cases, All,
}
use go_aptcacher.Base.Text.{Text, text_eq, text_eq_iff}
use go_aptcacher.FilePath.Split.{NoSlash, split-join}
use go_aptcacher.FilePath.{
  split, join, add_to_first, dot, dot_dot, backtrack, clean_part, clean_parts, is_rooted, render,
  clean,
}

-- A name of one file or directory, which leads neither to the same place nor up.
pub record IsElement (p : Text) : Type 0 where
  pub no_slash : NoSlash p
  pub not_empty : text_eq p [] ≡ false
  pub not_dot : text_eq p dot ≡ false
  pub not_dot_dot : text_eq p dot_dot ≡ false

-- The elements that Clean has kept, the last one first.
abbrev pub Kept : Bool → List Text → Type 0
Kept rooted [] = Unit
Kept rooted (p ∷ ps) =
    (IsElement p × Kept rooted ps) ⊎ ((rooted ≡ false) × (p ≡ dot_dot) × All (λ q. q ≡ dot_dot) ps)

pub clean_part_element :
    (rooted : Bool) (kept : List Text) (p : Text)
    → IsElement p
    → clean_part rooted kept p ≡ p ∷ kept
unfolding clean_part
clean_part_element rooted kept p e = rw (e.not_empty, e.not_dot, e.not_dot_dot)

pub clean_parts-cons :
    (rooted : Bool) (kept : List Text) (p : Text) (ps : List Text)
    → clean_parts rooted kept (p ∷ ps) ≡ clean_parts rooted (clean_part rooted kept p) ps
unfolding clean_parts
clean_parts-cons rooted kept p ps = refl

pub clean_parts-nil : (rooted : Bool) (kept : List Text) → clean_parts rooted kept [] ≡ kept
unfolding clean_parts
clean_parts-nil rooted kept = refl

pub clean_parts_elements :
    (rooted : Bool) (kept ps : List Text)
    → All IsElement ps
    → clean_parts rooted kept ps ≡ reverse ps ++ kept
clean_parts_elements rooted kept [] a = unfold clean_parts in refl
clean_parts_elements rooted kept (p ∷ ps) a =
    clean_parts-cons rooted kept p ps
    ∙ rw (clean_part_element rooted kept p a.0) (
        clean_parts_elements rooted (p ∷ kept) ps a.1
        ∙ rw reverse-cons (sym (append_assoc (reverse ps) (p ∷ []) kept)))

pub clean_parts-append :
    (rooted : Bool) (kept ps qs : List Text)
    → clean_parts rooted kept (ps ++ qs) ≡ clean_parts rooted (clean_parts rooted kept ps) qs
unfolding clean_parts
clean_parts-append rooted kept [] qs = refl
clean_parts-append rooted kept (p ∷ ps) qs =
    clean_parts-append rooted (clean_part rooted kept p) ps qs

Kept-tail : (rooted : Bool) (p : Text) (ps : List Text) → Kept rooted (p ∷ ps) → Kept rooted ps
Kept-tail rooted p ps (inl (e, k)) = k
Kept-tail rooted p [] (inr (r, e, all)) = tt
Kept-tail rooted p (q ∷ ps) (inr (r, e, all)) = inr (r, all.0, all.1)

backtrack-Kept :
    (rooted : Bool) (kept : List Text) → Kept rooted kept → Kept rooted (backtrack rooted kept)
unfolding backtrack
backtrack-Kept true [] k = tt
backtrack-Kept false [] k = inr (refl, refl, tt)
backtrack-Kept rooted (p ∷ ps) (inl (e, k)) = rw e.not_dot_dot k
backtrack-Kept rooted (p ∷ ps) (inr (r, e, all)) =
    rw ((text_eq_iff p dot_dot).1 e) (inr (r, refl, (e, all)))

clean_part-Kept :
    (rooted : Bool) (kept : List Text) (p : Text)
    → NoSlash p
    → Kept rooted kept
    → Kept rooted (clean_part rooted kept p)
clean_part-Kept rooted kept p n k = elim (Bool-cases (text_eq p [] || text_eq p dot)) [
  | inl e ↦ unfold clean_part in rw e k
  | inr e ↦ elim (Bool-cases (text_eq p dot_dot)) [
    | inl d ↦ unfold clean_part in rw (e, d) (backtrack-Kept rooted kept k)
    | inr d ↦
        unfold clean_part in
        rw (e, d)
          (inl (
            record {
              no_slash = n;
              not_empty = ground arith;
              not_dot = ground arith;
              not_dot_dot = d;
            },
            k,
          ))
  ]
]

pub clean_parts-Kept :
    (rooted : Bool) (kept ps : List Text)
    → All NoSlash ps
    → Kept rooted kept
    → Kept rooted (clean_parts rooted kept ps)
unfolding clean_parts
clean_parts-Kept rooted kept [] a k = k
clean_parts-Kept rooted kept (p ∷ ps) a k =
    clean_parts-Kept rooted (clean_part rooted kept p) ps a.1 (clean_part-Kept rooted kept p a.0 k)

pub split-All-NoSlash : (s : Text) → All NoSlash (split s)
unfolding split add_to_first
split-All-NoSlash [] = (tt, tt)
split-All-NoSlash (c ∷ s) = elim (Bool-cases (c == b'/')) [
  | inl e ↦ rw e (tt, split-All-NoSlash s)
  | inr e ↦ rw e (add_to_first-NoSlash c (split s) e (split-All-NoSlash s))
]
  where
    add_to_first-NoSlash :
        (d : ℕ) (ps : List Text)
        → (d == b'/') ≡ false
        → All NoSlash ps
        → All NoSlash (add_to_first d ps)
    add_to_first-NoSlash d [] e a = ((e, tt), tt)
    add_to_first-NoSlash d (p ∷ ps) e a = ((e, a.0), a.1)

-- Cleaning the elements that were kept keeps them all.
clean_part_again :
    (rooted : Bool) (p : Text) (ps : List Text)
    → Kept rooted (p ∷ ps)
    → clean_part rooted ps p ≡ p ∷ ps
clean_part_again rooted p ps (inl (e, k)) = clean_part_element rooted ps p e
clean_part_again true p ps (inr (r, e, all)) = cc
clean_part_again false p [] (inr (r, e, all)) = rw e (unfold clean_part backtrack text_eq in refl)
clean_part_again false p (q ∷ ps) (inr (r, e, all)) =
    rw (e, all.0) (unfold clean_part backtrack text_eq in refl)

split-render-rooted :
    (p : Text) (ps : List Text) → All NoSlash (p ∷ ps) → split (render true (p ∷ ps)) ≡ [] ∷ p ∷ ps
unfolding render split
split-render-rooted p ps a = ap (λ (qs : List Text). [] ∷ qs) (split-join p ps a)

pub clean_parts_again :
    (rooted : Bool) (kept : List Text)
    → Kept rooted kept
    → clean_parts rooted [] (reverse kept) ≡ kept
clean_parts_again rooted [] k = unfold clean_parts in refl
clean_parts_again rooted (p ∷ ps) k = rw reverse-cons (
    clean_parts-append rooted [] (reverse ps) (p ∷ [])
    ∙ rw (clean_parts_again rooted ps (Kept-tail rooted p ps k)) (
        clean_parts-cons rooted ps p []
        ∙ clean_parts-nil rooted (clean_part rooted ps p)
        ∙ clean_part_again rooted p ps k))

-- The elements of a path that was written out are those that were written.
pub clean_parts-split-render :
    (rooted : Bool) (kept ps : List Text)
    → All NoSlash ps
    → clean_parts rooted kept (split (render rooted ps)) ≡ clean_parts rooted kept ps
clean_parts-split-render true kept [] a =
    unfold render join split clean_parts clean_part text_eq in refl
clean_parts-split-render true kept (p ∷ ps) a =
    ap (clean_parts true kept) (split-render-rooted p ps a)
    ∙ clean_parts-cons true kept [] (p ∷ ps)
    ∙ ap (λ k. clean_parts true k (p ∷ ps)) (unfold clean_part text_eq in refl)
clean_parts-split-render false kept [] a =
    unfold render split add_to_first clean_parts clean_part text_eq in refl
clean_parts-split-render false kept (p ∷ ps) a =
    ap (clean_parts false kept) (unfold render in split-join p ps a)

-- What the elements of `s` are, the last one first.
abbrev pub elements : Text → List Text
elements s = clean_parts (is_rooted s) [] (split s)

pub clean-render : (s : Text) → clean s ≡ render (is_rooted s) (reverse (elements s))
unfolding clean
clean-render s = refl

pub elements-Kept : (s : Text) → Kept (is_rooted s) (elements s)
elements-Kept s = clean_parts-Kept (is_rooted s) [] (split s) (split-All-NoSlash s) tt

-- Above the root there is nothing: the elements of a rooted path are names.
pub Kept-rooted : (ps : List Text) → Kept true ps → All IsElement ps
Kept-rooted [] k = tt
Kept-rooted (p ∷ ps) (inl (e, k)) = (e, Kept-rooted ps k)
Kept-rooted (p ∷ ps) (inr (r, e, all)) = cc

abbrev pub IsName : Text → Type 0
IsName p = NoSlash p × (text_eq p [] ≡ false)

dot_dot-IsName : IsName dot_dot
unfolding text_eq
dot_dot-IsName = ((refl, (refl, tt)), refl)

All-dot_dot : (ps : List Text) → All (λ q. q ≡ dot_dot) ps → All IsName ps
All-dot_dot [] a = tt
All-dot_dot (p ∷ ps) a = (rw a.0 dot_dot-IsName, All-dot_dot ps a.1)

pub Kept-IsName : (rooted : Bool) (ps : List Text) → Kept rooted ps → All IsName ps
Kept-IsName rooted [] k = tt
Kept-IsName rooted (p ∷ ps) (inl (e, k)) = ((e.no_slash, e.not_empty), Kept-IsName rooted ps k)
Kept-IsName rooted (p ∷ ps) (inr (r, e, all)) = (rw e dot_dot-IsName, All-dot_dot ps all)
