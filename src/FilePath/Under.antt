-- ===== src/FilePath/Under.antt =====
-- filepath.Join of a cleaned directory, a name and a relative path made of names.
use mathlib.Core.List.{append_assoc, reverse-append, reverse-cons, reverse-reverse}
use go_aptcacher.Base.{
  ℕ, ◌≡◌, refl, ap, ◌∙◌, Bool, true, false, List, [], ◌∷◌, ◌++◌, reverse, ◌==◌, All, All-reverse,
}
use go_aptcacher.Base.Text.{Text, text_eq}
use go_aptcacher.FilePath.Split.{NoSlash, split-append, split-NoSlash, split-join}
use go_aptcacher.FilePath.Normal.{
  IsElement, Kept, IsName, clean_parts_elements, clean_parts-append, clean_parts_again,
  clean_parts-split-render, Kept-IsName, clean-render,
}
use go_aptcacher.FilePath.{
  split, join, clean_part, clean_parts, is_rooted, render, clean, join_paths,
}

All-fst : (ps : List Text) → All IsName ps → All NoSlash ps
All-fst [] a = tt
All-fst (p ∷ ps) a = (a.0.0, All-fst ps a.1)

pub elements-NoSlash : (ps : List Text) → All IsElement ps → All NoSlash ps
elements-NoSlash [] a = tt
elements-NoSlash (p ∷ ps) a = (a.0.no_slash, elements-NoSlash ps a.1)

-- A path that was written out has a first byte, which is a slash if and only if it is rooted.
abbrev Begins : Bool → Text → Type 0
Begins rooted s = (c : ℕ) × (t : Text) × (s ≡ c ∷ t) × ((c == b'/') ≡ rooted)

join-Begins : (p : Text) (ps : List Text) → IsName p → Begins false (join (p ∷ ps))
unfolding join text_eq
join-Begins [] ps n = cc
join-Begins (c ∷ p) [] n = (c, p, refl, n.0.0)
join-Begins (c ∷ p) (q ∷ ps) n = (c, p ++ b'/' ∷ join (q ∷ ps), refl, n.0.0)

render-Begins : (rooted : Bool) (ps : List Text) → All IsName ps → Begins rooted (render rooted ps)
unfolding render
render-Begins true ps a = (b'/', join ps, refl, refl)
render-Begins false [] a = (b'.', [], refl, refl)
render-Begins false (p ∷ ps) a = join-Begins p ps a.0

is_rooted-append : (rooted : Bool) (s t : Text) → Begins rooted s → is_rooted (s ++ t) ≡ rooted
unfolding is_rooted
is_rooted-append rooted s t (c, u, e, r) = rw e r

join_paths-cons :
    (rooted : Bool) (s h rel : Text)
    → Begins rooted s
    → join_paths (s ∷ h ∷ rel ∷ []) ≡ clean (s ++ b'/' ∷ (h ++ b'/' ∷ rel))
unfolding join_paths join
join_paths-cons rooted s h rel (c, u, e, r) = rw e

pub clean_parts-split-join :
    (rooted : Bool) (kept ps : List Text)
    → All IsElement ps
    → clean_parts rooted kept (split (join ps)) ≡ reverse ps ++ kept
clean_parts-split-join rooted kept [] a = unfold join split clean_parts clean_part text_eq in refl
clean_parts-split-join rooted kept (p ∷ ps) a =
    ap (clean_parts rooted kept) (split-join p ps (elements-NoSlash (p ∷ ps) a))
    ∙ clean_parts_elements rooted kept (p ∷ ps) a

module _ (rooted : Bool) (kept : List Text) (k : Kept rooted kept) where
  elements_under :
      (h : Text) (cs : List Text)
      → IsElement h
      → All IsElement cs
      → clean_parts rooted [] (split (render rooted (reverse kept) ++ b'/' ∷ (h ++ b'/' ∷ join cs)))
        ≡ reverse cs ++ h ∷ kept
  elements_under h cs e a =
      let s = render rooted (reverse kept) in
      let names = All-reverse IsName kept (Kept-IsName rooted kept k) in
      ap (clean_parts rooted []) (split-append s (h ++ b'/' ∷ join cs))
      ∙ clean_parts-append rooted [] (split s) (split (h ++ b'/' ∷ join cs))
      ∙ ap (λ r. clean_parts rooted r (split (h ++ b'/' ∷ join cs)))
          (clean_parts-split-render rooted [] (reverse kept) (All-fst (reverse kept) names)
            ∙ clean_parts_again rooted kept k)
      ∙ ap (clean_parts rooted kept) (
          split-append h (join cs)
          ∙ ap (λ (r : List Text). r ++ split (join cs)) (split-NoSlash h e.no_slash))
      ∙ clean_parts-append rooted kept (h ∷ []) (split (join cs))
      ∙ ap (λ r. clean_parts rooted r (split (join cs)))
          (clean_parts_elements rooted kept (h ∷ []) (e, tt))
      ∙ clean_parts-split-join rooted (h ∷ kept) cs a

  -- The joined path is the directory's elements, then the name, then the others.
  pub join_paths_under :
      (h : Text) (cs : List Text)
      → IsElement h
      → All IsElement cs
      → join_paths (render rooted (reverse kept) ∷ h ∷ join cs ∷ [])
        ≡ render rooted (reverse kept ++ h ∷ cs)
  join_paths_under h cs e a =
      let s = render rooted (reverse kept) in
      let names = All-reverse IsName kept (Kept-IsName rooted kept k) in
      let begins = render-Begins rooted (reverse kept) names in
      let t = s ++ b'/' ∷ (h ++ b'/' ∷ join cs) in
      let r = is_rooted-append rooted s (b'/' ∷ (h ++ b'/' ∷ join cs)) begins in
      join_paths-cons rooted s h (join cs) begins
      ∙ clean-render t
      ∙ ap (λ b. render b (reverse (clean_parts b [] (split t)))) r
      ∙ ap (λ ps. render rooted (reverse ps)) (elements_under h cs e a)
      ∙ ap (render rooted) (
          reverse-append (reverse cs) (h ∷ kept)
          ∙ simp (reverse-reverse, reverse-cons, append_assoc))
