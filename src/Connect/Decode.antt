-- ===== src/Connect/Decode.antt =====
-- The chunked transfer coding of HTTP/1.1 (RFC 9112, section 7.1), without extensions and trailers, as
-- a client reads it.
use go_aptcacher.Base.{
  ℕ, zero, suc, ◌≡◌, ◌≢◌, refl, ap, ◌∙◌, [], ◌∷◌, ◌++◌, Option, none, some, if◌then◌else◌, length,
  All,
}
use go_aptcacher.Base.Text.{Text, codes, cut_prefix}
use mathlib.Core.List.{append_assoc}
use go_aptcacher.Connect.{crlf, hex}
use go_aptcacher.Connect.Hex.{is_hex, read_size, read_size-hex, hex_digits, hex-nonempty, IsHex}

-- The size of a chunk, of one digit at least, and what follows its line.
unfoldable pub size_line : Text → Option (ℕ × Text)
unfolding read_size
size_line [] = none
size_line (c ∷ cs) = if is_hex c then read_size 0 (c ∷ cs) else none

unfoldable pub split_at : ℕ → Text → Option (Text × Text)
split_at zero t = some ([], t)
split_at (suc n) [] = none
split_at (suc n) (c ∷ cs) = elim (split_at n cs) [ none ↦ none | some x ↦ some (c ∷ x.0, x.1) ]

unfoldable pub prepend : Text → Option (Text × Text) → Option (Text × Text)
prepend d none = none
prepend d (some (body, rest)) = some (d ++ body, rest)

-- What follows the data of a chunk: a CRLF, and the other chunks.
unfoldable pub after_data :
    (Text → Option (Text × Text)) → Option (Text × Text) → Option (Text × Text)
unfolding prepend cut_prefix
after_data next none = none
after_data next (some (d, t)) = elim (cut_prefix crlf t) [
  | none ↦ none
  | some rest ↦ prepend d (next rest)
]

unfoldable pub after_size : (Text → Option (Text × Text)) → Option (ℕ × Text) → Option (Text × Text)
unfolding after_data split_at
after_size next none = none
after_size next (some (zero, t)) = elim (cut_prefix crlf t) [
  | none ↦ none
  | some rest ↦ some ([], rest)
]
after_size next (some (suc n, t)) = after_data next (split_at (suc n) t)

-- The body that is sent in chunks, of fewer than `fuel`, and what follows it.
unfoldable pub decode : ℕ → Text → Option (Text × Text)
unfolding after_size size_line
decode zero t = none
decode (suc fuel) t = after_size (decode fuel) (size_line t)

-- One chunk, as Write sends it.
abbrev pub chunk : Text → Text
chunk p = hex (suc (length p)) (length p) ++ crlf ++ p ++ crlf

split_at-append : (s t : Text) → split_at (length s) (s ++ t) ≡ some (s, t)
unfolding split_at
split_at-append [] t = refl
split_at-append (c ∷ s) t = rw (split_at-append s t) refl

size_line-digits : (s t : Text) → All IsHex s → s ≢ [] → size_line (s ++ t) ≡ read_size 0 (s ++ t)
unfolding size_line
size_line-digits [] t a ne = absurd (ne refl)
size_line-digits (c ∷ s) t a ne = rw a.0 refl

size_line-hex : (n : ℕ) (t : Text) → size_line (hex (suc n) n ++ (crlf ++ t)) ≡ some (n, t)
unfolding size_line
size_line-hex n t =
    size_line-digits (hex (suc n) n) (crlf ++ t) (hex_digits (suc n) n) (hex-nonempty n n)
    ∙ read_size-hex n t

chunk-append :
    (p t : Text) → chunk p ++ t ≡ hex (suc (length p)) (length p) ++ (crlf ++ (p ++ (crlf ++ t)))
chunk-append p t = simp (append_assoc)

after_data-crlf :
    (next : Text → Option (Text × Text)) (d t : Text)
    → after_data next (some (d, crlf ++ t)) ≡ prepend d (next t)
unfolding after_data cut_prefix
after_data-crlf next d t = refl

after_size-data :
    (next : Text → Option (Text × Text)) (c : ℕ) (p t : Text)
    → after_size next (some (length (c ∷ p), (c ∷ p) ++ (crlf ++ t))) ≡ prepend (c ∷ p) (next t)
unfolding after_size
after_size-data next c p t =
    rw (split_at-append (c ∷ p) (crlf ++ t)) (after_data-crlf next (c ∷ p) t)

pub decode-chunk :
    (fuel : ℕ) (p t : Text) → p ≢ [] → decode (suc fuel) (chunk p ++ t) ≡ prepend p (decode fuel t)
unfolding decode
decode-chunk fuel [] t ne = absurd (ne refl)
decode-chunk fuel (c ∷ p) t ne =
    let n = length (c ∷ p) in
    ap (λ (x : Text). after_size (λ y. decode fuel y) (size_line x)) (chunk-append (c ∷ p) t)
    ∙ rw (size_line-hex n ((c ∷ p) ++ (crlf ++ t))) (after_size-data (λ y. decode fuel y) c p t)

pub decode-last : (fuel : ℕ) (t : Text) → decode (suc fuel) (codes "0\r\n\r\n" ++ t) ≡ some ([], t)
unfolding decode size_line read_size after_size cut_prefix
decode-last fuel t = refl
