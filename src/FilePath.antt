-- ===== src/FilePath.antt =====
-- The functions of Go's packages path and path/filepath (on Unix, where the two agree) that the
-- sources call: Clean, Join, Dir and Base.
pub mod Split
pub mod Normal
pub mod Under
pub mod Dir
pub mod Joined
pub mod Resolve
use go_aptcacher.Base.{
  ℕ, Bool, true, false, not, ◌&&◌, ◌||◌, List, [], ◌∷◌, ◌++◌, reverse, Option, none, some, ◌==◌,
  if◌then◌else◌,
}
use go_aptcacher.Base.Text.{Text, text_eq, codes}

-- strings.Split(s, "/"), a list that is never empty.
unfoldable pub add_to_first : ℕ → List Text → List Text
add_to_first c [] = (c ∷ []) ∷ []
add_to_first c (p ∷ ps) = (c ∷ p) ∷ ps

unfoldable pub split : Text → List Text
unfolding add_to_first
split [] = [] ∷ []
split (c ∷ cs) = let rest = split cs in if c == b'/' then [] ∷ rest else add_to_first c rest

-- strings.Join(parts, "/")
unfoldable pub join : List Text → Text
join [] = []
join (p ∷ []) = p
join (p ∷ q ∷ ps) = p ++ b'/' ∷ join (q ∷ ps)

abbrev pub dot : Text
dot = b'.' ∷ []

abbrev pub dot_dot : Text
dot_dot = b'.' ∷ b'.' ∷ []

-- A ".." takes the last element away, if there is one to take; above the root there is nothing.
unfoldable pub backtrack : Bool → List Text → List Text
backtrack true [] = []
backtrack false [] = dot_dot ∷ []
backtrack rooted (p ∷ ps) = if text_eq p dot_dot then dot_dot ∷ p ∷ ps else ps

-- One element of a path, on the elements kept so far with the last one first.
unfoldable pub clean_part : Bool → List Text → Text → List Text
unfolding backtrack
clean_part rooted kept p =
    if text_eq p [] || text_eq p dot
    then kept
    else if text_eq p dot_dot
    then backtrack rooted kept
    else p ∷ kept

unfoldable pub clean_parts : Bool → List Text → List Text → List Text
unfolding clean_part
clean_parts rooted kept [] = kept
clean_parts rooted kept (p ∷ ps) = clean_parts rooted (clean_part rooted kept p) ps

unfoldable pub is_rooted : Text → Bool
is_rooted [] = false
is_rooted (c ∷ cs) = c == b'/'

unfoldable pub render : Bool → List Text → Text
unfolding join
render true ps = b'/' ∷ join ps
render false [] = dot
render false (p ∷ ps) = join (p ∷ ps)

-- Clean: the shortest path that names the same file.
unfoldable pub clean : Text → Text
unfolding clean_parts is_rooted render split
clean s = render (is_rooted s) (reverse (clean_parts (is_rooted s) [] (split s)))

-- Join leaves out the empty elements in front, and is empty if there are no others.
unfoldable pub join_paths : List Text → Text
unfolding clean
join_paths [] = []
join_paths ([] ∷ ps) = join_paths ps
join_paths ((c ∷ p) ∷ ps) = clean (join ((c ∷ p) ∷ ps))

-- The part of a text behind its last slash, and the part up to and with that slash.
unfoldable pub after_last : Text → Text → Text
after_last seen [] = reverse seen
after_last seen (c ∷ cs) = after_last (if c == b'/' then [] else c ∷ seen) cs

unfoldable pub up_to_last : Text → Text → Text → Text
up_to_last kept seen [] = reverse kept
up_to_last kept seen (c ∷ cs) = up_to_last (if c == b'/' then c ∷ seen else kept) (c ∷ seen) cs

-- Dir
unfoldable pub dir : Text → Text
unfolding clean up_to_last
dir s = clean (up_to_last [] [] s)

unfoldable pub drop_slashes : Text → Text
drop_slashes [] = []
drop_slashes (c ∷ cs) = let rest = drop_slashes cs in if c == b'/' then rest else c ∷ cs

-- Base
unfoldable pub base : Text → Text
unfolding after_last drop_slashes
base [] = dot
base (c ∷ cs) = elim (drop_slashes (reverse (c ∷ cs))) [
  | [] ↦ b'/' ∷ []
  | d ∷ ds ↦ after_last [] (reverse (d ∷ ds))
]
