-- ===== src/FilePath/Resolve.antt =====
-- resolvePath of package net/url, which ResolveReference calls: `.` and `..` are taken out of a path,
-- and the latter takes the element before it with it.
use go_aptcacher.Base.{Bool, false, ◌||◌, List, [], ◌∷◌, ◌++◌, reverse, if◌then◌else◌, ◌==◌}
use go_aptcacher.Base.Text.{Text, codes, text_eq}
use go_aptcacher.FilePath.{split, join, dot, dot_dot, up_to_last}

unfoldable pub drop_first : List Text → List Text
drop_first [] = []
drop_first (p ∷ ps) = ps

-- The elements written so far, the last one first.
unfoldable pub resolve_parts : List Text → List Text → List Text
unfolding drop_first
resolve_parts kept [] = kept
resolve_parts kept (p ∷ ps) =
    resolve_parts
      (if text_eq p dot then kept else if text_eq p dot_dot then drop_first kept else p ∷ kept) ps

unfoldable pub ends_in_dots : List Text → Bool
ends_in_dots [] = false
ends_in_dots (p ∷ []) = text_eq p dot || text_eq p dot_dot
ends_in_dots (p ∷ q ∷ ps) = ends_in_dots (q ∷ ps)

unfoldable pub one_slash : Text → Text
one_slash [] = b'/' ∷ []
one_slash (c ∷ cs) = if c == b'/' then c ∷ cs else b'/' ∷ c ∷ cs

unfoldable pub resolve_path : Text → Text
unfolding resolve_parts ends_in_dots one_slash
resolve_path [] = []
resolve_path (c ∷ cs) =
    let parts = split (c ∷ cs) in
    let resolved = join (reverse (resolve_parts [] parts)) in
    one_slash (if ends_in_dots parts then resolved ++ codes "/" else resolved)

-- The path of a reference that has no host, by the path of the URL that it stands in.
unfoldable pub resolve_reference : Text → Text → Text
unfolding resolve_path up_to_last
resolve_reference base [] = resolve_path base
resolve_reference base (c ∷ cs) =
    if c == b'/' then resolve_path (c ∷ cs) else resolve_path (up_to_last [] [] base ++ c ∷ cs)
