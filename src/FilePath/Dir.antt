-- ===== src/FilePath/Dir.antt =====
-- Dir and Base of a rooted path that is written out from its elements.
use mathlib.Core.List.{append_assoc, append-nil, reverse-append, reverse-cons, reverse-reverse}
use go_aptcacher.Base.{
  ℕ, ◌≡◌, refl, sym, ap, ◌∙◌, true, false, List, [], ◌∷◌, ◌++◌, reverse, ◌==◌, All, All-reverse,
  if◌then◌else◌,
}
use go_aptcacher.Base.Text.{Text, text_eq}
use go_aptcacher.FilePath.Split.{NoSlash, split-append, split-join}
use go_aptcacher.FilePath.Normal.{
  IsElement, clean_parts_elements, clean_parts-append, clean_parts-cons, clean_parts-nil,
}
use go_aptcacher.FilePath.Under.{elements-NoSlash}
use go_aptcacher.FilePath.{
  split, join, clean_part, clean_parts, is_rooted, render, clean, after_last, up_to_last, dir,
  drop_slashes, base,
}

-- Each element behind a slash.
unfoldable slashed : List Text → Text
slashed [] = []
slashed (p ∷ ps) = b'/' ∷ (p ++ slashed ps)

join-slashed : (p : Text) (ps : List Text) → join (p ∷ ps) ≡ p ++ slashed ps
unfolding join slashed
join-slashed p [] = sym (append-nil p)
join-slashed p (q ∷ ps) = ap (λ t. p ++ b'/' ∷ t) (join-slashed q ps)

slashed-append : (ps qs : List Text) → slashed (ps ++ qs) ≡ slashed ps ++ slashed qs
unfolding slashed
slashed-append [] qs = refl
slashed-append (p ∷ ps) qs =
    ap (λ t. b'/' ∷ t)
      (ap (λ t. p ++ t) (slashed-append ps qs) ∙ sym (append_assoc p (slashed ps) (slashed qs)))

render-slashed : (p : Text) (ps : List Text) → render true (p ∷ ps) ≡ slashed (p ∷ ps)
unfolding render slashed
render-slashed p ps = ap (λ t. b'/' ∷ t) (join-slashed p ps)

-- A path is what stands before its last element, a slash, and that element.
render-snoc : (ps : List Text) (p : Text) → render true (ps ++ p ∷ []) ≡ slashed ps ++ b'/' ∷ p
render-snoc [] p = unfold render join slashed in refl
render-snoc (q ∷ ps) p =
    render-slashed q (ps ++ p ∷ [])
    ∙ slashed-append (q ∷ ps) (p ∷ [])
    ∙ ap (λ t. slashed (q ∷ ps) ++ t) (unfold slashed in ap (λ t. b'/' ∷ t) (append-nil p))

up_to_last-NoSlash : (kept seen s : Text) → NoSlash s → up_to_last kept seen s ≡ reverse kept
unfolding up_to_last
up_to_last-NoSlash kept seen [] h = refl
up_to_last-NoSlash kept seen (c ∷ s) h = rw h.0 (up_to_last-NoSlash kept (c ∷ seen) s h.1)

up_to_last-append :
    (kept seen a s : Text)
    → NoSlash s
    → up_to_last kept seen (a ++ b'/' ∷ s) ≡ reverse seen ++ (a ++ b'/' ∷ [])
unfolding up_to_last
up_to_last-append kept seen [] s h =
    up_to_last-NoSlash (b'/' ∷ seen) (b'/' ∷ seen) s h ∙ reverse-cons b'/' seen
up_to_last-append kept seen (c ∷ a) s h =
    up_to_last-append (if c == b'/' then c ∷ seen else kept) (c ∷ seen) a s h
    ∙ (ap (λ t. t ++ (a ++ b'/' ∷ [])) (reverse-cons c seen)
        ∙ append_assoc (reverse seen) (c ∷ []) (a ++ b'/' ∷ []))

split-slashed : (ps : List Text) → All NoSlash ps → split (slashed ps) ≡ [] ∷ ps
split-slashed [] h = unfold split slashed in refl
split-slashed (p ∷ ps) h =
    ap split (sym (render-slashed p ps))
    ∙ (unfold render split in ap (λ (qs : List Text). [] ∷ qs) (split-join p ps h))

is_rooted-slashed : (ps : List Text) → is_rooted (slashed ps ++ b'/' ∷ []) ≡ true
unfolding is_rooted slashed
is_rooted-slashed [] = refl
is_rooted-slashed (p ∷ ps) = refl

clean_part_empty : (kept : List Text) → clean_part true kept [] ≡ kept
unfolding clean_part text_eq
clean_part_empty kept = refl

-- An empty element leaves what is kept.
clean_parts-empty :
    (kept ps : List Text) → clean_parts true kept ([] ∷ ps) ≡ clean_parts true kept ps
clean_parts-empty kept ps =
    clean_parts-cons true kept [] ps ∙ ap (λ k. clean_parts true k ps) (clean_part_empty kept)

clean_parts-slashed :
    (ps : List Text)
    → All IsElement ps
    → clean_parts true [] (split (slashed ps ++ b'/' ∷ [])) ≡ reverse ps
clean_parts-slashed ps h =
    ap (clean_parts true []) (
      split-append (slashed ps) []
      ∙ ap (λ (x : List Text). x ++ split []) (split-slashed ps (elements-NoSlash ps h)))
    ∙ clean_parts-append true [] ([] ∷ ps) (split [])
    ∙ ap (λ k. clean_parts true k (split []))
        (clean_parts-empty [] ps ∙ clean_parts_elements true [] ps h ∙ append-nil (reverse ps))
    ∙ (unfold split in clean_parts-empty (reverse ps) [] ∙ clean_parts-nil true (reverse ps))

clean-slashed :
    (ps : List Text) → All IsElement ps → clean (slashed ps ++ b'/' ∷ []) ≡ render true ps
unfolding clean
clean-slashed ps h = rw (is_rooted-slashed ps) (
    ap (λ (x : List Text). render true (reverse x)) (clean_parts-slashed ps h)
    ∙ ap (render true) (reverse-reverse ps))

pub dir-render :
    (ps : List Text) (p : Text)
    → All IsElement ps
    → IsElement p
    → dir (render true (ps ++ p ∷ [])) ≡ render true ps
unfolding dir
dir-render ps p h e =
    ap (λ t. clean (up_to_last [] [] t)) (render-snoc ps p)
    ∙ ap clean (up_to_last-append [] [] (slashed ps) p e.no_slash)
    ∙ clean-slashed ps h

after_last-NoSlash : (seen s : Text) → NoSlash s → after_last seen s ≡ reverse seen ++ s
unfolding after_last
after_last-NoSlash seen [] h = sym (append-nil (reverse seen))
after_last-NoSlash seen (c ∷ s) h = rw h.0 (
    after_last-NoSlash (c ∷ seen) s h.1
    ∙ (ap (λ t. t ++ s) (reverse-cons c seen) ∙ append_assoc (reverse seen) (c ∷ []) s))

after_last-append : (seen a s : Text) → NoSlash s → after_last seen (a ++ b'/' ∷ s) ≡ s
unfolding after_last
after_last-append seen [] s h = after_last-NoSlash [] s h
after_last-append seen (c ∷ a) s h = after_last-append (if c == b'/' then [] else c ∷ seen) a s h

drop_slashes-NoSlash :
    (s t : Text) → NoSlash s → text_eq s [] ≡ false → drop_slashes (s ++ t) ≡ s ++ t
unfolding drop_slashes text_eq
drop_slashes-NoSlash [] t h e = cc
drop_slashes-NoSlash (c ∷ s) t h e = rw h.0 refl

append_not_empty : (t : Text) (d : ℕ) → text_eq (t ++ d ∷ []) [] ≡ false
unfolding text_eq
append_not_empty [] d = refl
append_not_empty (x ∷ t) d = refl

reverse_not_empty : (s : Text) → text_eq s [] ≡ false → text_eq (reverse s) [] ≡ false
reverse_not_empty [] e = e
reverse_not_empty (c ∷ s) e = rw (reverse-cons c s) (append_not_empty (reverse s) c)

base_of :
    (c : ℕ) (cs t : Text)
    → drop_slashes (reverse (c ∷ cs)) ≡ t
    → text_eq t [] ≡ false
    → base (c ∷ cs) ≡ after_last [] (reverse t)
unfolding base text_eq
base_of c cs [] h e = cc
base_of c cs (d ∷ ds) h e = rw (h, base) refl

drop_slashes-append :
    (a p : Text) → IsElement p → drop_slashes (reverse (a ++ b'/' ∷ p)) ≡ reverse (a ++ b'/' ∷ p)
drop_slashes-append a p e =
    let written : reverse (a ++ b'/' ∷ p) ≡ reverse p ++ (b'/' ∷ reverse a) =
      reverse-append a (b'/' ∷ p)
      ∙ ap (λ (x : Text). x ++ reverse a) (reverse-cons b'/' p)
      ∙ append_assoc (reverse p) (b'/' ∷ []) (reverse a) in
    rw written (
      drop_slashes-NoSlash (reverse p) (b'/' ∷ reverse a)
        (All-reverse (λ c. (c == b'/') ≡ false) p e.no_slash) (reverse_not_empty p e.not_empty))

base-cons : (c : ℕ) (cs a p : Text) → c ∷ cs ≡ a ++ b'/' ∷ p → IsElement p → base (c ∷ cs) ≡ p
base-cons c cs a p h e =
    base_of c cs (reverse (c ∷ cs))
      (ap (λ (x : Text). drop_slashes (reverse x)) h
        ∙ (drop_slashes-append a p e ∙ ap reverse (sym h)))
      (reverse_not_empty (c ∷ cs) (unfold text_eq in refl))
    ∙ ap (after_last []) (reverse-reverse (c ∷ cs) ∙ h)
    ∙ after_last-append [] a p e.no_slash

pub base-render : (ps : List Text) (p : Text) → IsElement p → base (render true (ps ++ p ∷ [])) ≡ p
base-render [] p e = unfold render join in base-cons b'/' p [] p refl e
base-render (q ∷ ps) p e =
    ap base (render-snoc (q ∷ ps) p)
    ∙ (unfold slashed in base-cons b'/' ((q ++ slashed ps) ++ b'/' ∷ p) (slashed (q ∷ ps)) p refl e)
