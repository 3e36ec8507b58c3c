-- ===== src/FilePath/Joined.antt =====
-- Join of a rooted path that is written out from its elements, and more elements.
use mathlib.Core.List.{append-nil, reverse-append, reverse-reverse}
use go_aptcacher.Base.{◌≡◌, sym, ap, ◌∙◌, true, List, [], ◌∷◌, ◌++◌, reverse, All}
use go_aptcacher.Base.Text.{Text}
use go_aptcacher.FilePath.Split.{split-append}
use go_aptcacher.FilePath.Normal.{
  IsElement, clean_parts_elements, clean_parts-append, clean_parts-split-render,
}
use go_aptcacher.FilePath.Under.{elements-NoSlash, clean_parts-split-join}
use go_aptcacher.FilePath.{split, join, clean_parts, is_rooted, render, clean, join_paths}

abbrev joined : List Text → Text → List Text → Text
joined ps q qs = render true ps ++ b'/' ∷ join (q ∷ qs)

clean_parts-joined :
    (ps : List Text) (q : Text) (qs : List Text)
    → All IsElement ps
    → All IsElement (q ∷ qs)
    → clean_parts true [] (split (joined ps q qs)) ≡ reverse (ps ++ q ∷ qs)
clean_parts-joined ps q qs h k =
    ap (clean_parts true []) (split-append (render true ps) (join (q ∷ qs)))
    ∙ clean_parts-append true [] (split (render true ps)) (split (join (q ∷ qs)))
    ∙ ap (λ (x : List Text). clean_parts true x (split (join (q ∷ qs))))
        (clean_parts-split-render true [] ps (elements-NoSlash ps h)
          ∙ clean_parts_elements true [] ps h
          ∙ append-nil (reverse ps))
    ∙ clean_parts-split-join true (reverse ps) (q ∷ qs) k
    ∙ sym (reverse-append ps (q ∷ qs))

clean-joined :
    (ps : List Text) (q : Text) (qs : List Text)
    → All IsElement ps
    → All IsElement (q ∷ qs)
    → clean (joined ps q qs) ≡ render true (ps ++ q ∷ qs)
unfolding clean
clean-joined ps q qs h k =
    (unfold is_rooted render in
      ap (λ (x : List Text). render true (reverse x)) (clean_parts-joined ps q qs h k))
    ∙ ap (render true) (reverse-reverse (ps ++ q ∷ qs))

-- Join of a cleaned path and elements.
pub join_paths-render :
    (ps : List Text) (q : Text) (qs : List Text)
    → All IsElement ps
    → All IsElement (q ∷ qs)
    → join_paths (render true ps ∷ q ∷ qs) ≡ render true (ps ++ q ∷ qs)
join_paths-render ps q qs h k = unfold join_paths render join in clean-joined ps q qs h k
