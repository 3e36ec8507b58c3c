-- ===== src/Access/Disk/Json.antt =====
-- What encoding/json makes of a Go string: Marshal and then Unmarshal give each byte that is not part of
-- UTF-8 as U+FFFD, and all else as it was.
use go_aptcacher.Base.{
  ℕ, zero, suc, ◌≡◌, refl, ap, Bool, true, false, not, ◌&&◌, ◌||◌, [], ◌∷◌, inl, inr, leb, ◌==◌,
  if◌then◌else◌, Bool-cases,
}
use go_aptcacher.Base.Text.{Text}

abbrev between : ℕ → ℕ → ℕ → Bool
between lo hi c = leb lo c && leb c hi

-- The bytes that go on a character, of which the first one is in a range of its own.
unfoldable goes_on : ℕ → ℕ → ℕ → Text → Bool
goes_on n lo hi [] = false
goes_on zero lo hi (c ∷ s) = false
goes_on (suc zero) lo hi (c ∷ s) = between lo hi c
goes_on (suc (suc n)) lo hi (c ∷ s) = between lo hi c && goes_on (suc n) 128 191 s

-- How many bytes follow a first byte, and the range of the first of them (the table of utf8.DecodeRune).
unfoldable tail_bytes : ℕ → Text → ℕ
unfolding goes_on
tail_bytes c s =
    if between 194 223 c && goes_on 1 128 191 s
    then 1
    else if (c == 224 && goes_on 2 160 191 s)
        || (c == 237 && goes_on 2 128 159 s)
        || ((between 225 236 c || between 238 239 c) && goes_on 2 128 191 s)
    then 2
    else if (c == 240 && goes_on 3 144 191 s)
        || (c == 244 && goes_on 3 128 143 s)
        || (between 241 243 c && goes_on 3 128 191 s)
    then 3
    else 0

-- The first byte is one of a character: ASCII, or with the bytes that follow.
unfoldable starts : ℕ → Text → Bool
unfolding tail_bytes
starts c s = leb c 127 || not (tail_bytes c s == 0)

-- utf8.ValidString, behind a character of which some bytes are left.
unfoldable is_utf8_from : ℕ → Text → Bool
unfolding starts tail_bytes
is_utf8_from n [] = true
is_utf8_from (suc n) (c ∷ s) = is_utf8_from n s
is_utf8_from zero (c ∷ s) = let rest = is_utf8_from (tail_bytes c s) s in starts c s && rest

unfoldable pub is_utf8 : Text → Bool
unfolding is_utf8_from
is_utf8 s = is_utf8_from 0 s

unfoldable json_text_from : ℕ → Text → Text
unfolding starts tail_bytes
json_text_from n [] = []
json_text_from (suc n) (c ∷ s) = c ∷ json_text_from n s
json_text_from zero (c ∷ s) =
    let rest = json_text_from (tail_bytes c s) s in
    if starts c s then c ∷ rest else 239 ∷ 191 ∷ 189 ∷ rest

-- A string that went through a JSON file.
unfoldable pub json_text : Text → Text
unfolding json_text_from
json_text s = json_text_from 0 s

json_text_from-utf8 : (n : ℕ) (s : Text) → is_utf8_from n s ≡ true → json_text_from n s ≡ s
unfolding is_utf8_from json_text_from
json_text_from-utf8 zero [] h = refl
json_text_from-utf8 (suc n) [] h = refl
json_text_from-utf8 (suc n) (c ∷ s) h = ap (λ (t : Text). c ∷ t) (json_text_from-utf8 n s h)
json_text_from-utf8 zero (c ∷ s) h = elim (Bool-cases (starts c s)) [
  | inl e ↦ rw e (ap (λ (t : Text). c ∷ t) (json_text_from-utf8 (tail_bytes c s) s (rw e at h)))
  | inr e ↦ absurd (cc (rw e at h))
]

pub json_text-utf8 : (s : Text) → is_utf8 s ≡ true → json_text s ≡ s
unfolding is_utf8 json_text
json_text-utf8 s h = json_text_from-utf8 0 s h
