-- ===== src/Sources/Scan.antt =====
-- The readers of lines and fields that pkg/fscache/sourceverify.go uses: bufio.Scanner with its split
-- into lines, and strings.Fields.
use go_aptcacher.Base.{ℕ, Bool, List, [], ◌∷◌, if◌then◌else◌, ltb, ◌==◌, length}
use go_aptcacher.Base.Text.{Text, is_empty, is_space}

unfoldable pub add_front : ℕ → List Text → List Text
add_front c [] = (c ∷ []) ∷ []
add_front c (p ∷ ps) = (c ∷ p) ∷ ps

-- The parts between the bytes of a test, a list that is never empty.
unfoldable pub split_by : (ℕ → Bool) → Text → List Text
unfolding add_front
split_by p [] = [] ∷ []
split_by p (c ∷ cs) = let rest = split_by p cs in if p c then [] ∷ rest else add_front c rest

abbrev pub is_newline : ℕ → Bool
is_newline c = c == 10

unfoldable pub drop_last_empty : List Text → List Text
drop_last_empty [] = []
drop_last_empty (p ∷ []) = if is_empty p then [] else p ∷ []
drop_last_empty (p ∷ q ∷ ps) = p ∷ drop_last_empty (q ∷ ps)

-- The carriage return at the end of a line goes.
unfoldable pub drop_cr : Text → Text
drop_cr [] = []
drop_cr (c ∷ []) = if c == 13 then [] else c ∷ []
drop_cr (c ∷ d ∷ cs) = c ∷ drop_cr (d ∷ cs)

-- bufio.MaxScanTokenSize
abbrev pub max_scan_token_size : ℕ
max_scan_token_size = 65536

-- Scan gives no more lines from the first one on that does not fit the buffer.
unfoldable pub scanned : List Text → List Text
unfolding drop_cr
scanned [] = []
scanned (l ∷ ls) =
    let rest = scanned ls in if ltb (length l) max_scan_token_size then drop_cr l ∷ rest else []

-- The lines that a bufio.Scanner gives.
unfoldable pub scan_lines : Text → List Text
unfolding scanned drop_last_empty split_by
scan_lines s = scanned (drop_last_empty (split_by is_newline s))

unfoldable pub non_empty : List Text → List Text
non_empty [] = []
non_empty (p ∷ ps) = let rest = non_empty ps in if is_empty p then rest else p ∷ rest

-- strings.Fields, over ASCII.
unfoldable pub fields : Text → List Text
unfolding non_empty split_by
fields s = non_empty (split_by is_space s)
