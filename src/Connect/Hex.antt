-- ===== src/Connect/Hex.antt =====
-- The sizes of chunks: the text of the verb %x, and reading it again.
use go_aptcacher.Base.{
  ℕ, zero, suc, ◌+◌, ◌-◌, ◌*◌, ◌/◌, ◌%◌, ◌<◌, ◌≡◌, ◌≢◌, refl, ap, ◌∙◌, Bool, true, ◌&&◌, ◌||◌, [],
  ◌∷◌, ◌++◌, Option, none, some, arith, ltb, leb, ◌==◌, if◌then◌else◌, All, All-append, inl, inr,
  Bool-cases,
}
use go_aptcacher.Base.Text.{Text}
use go_aptcacher.Connect.{hex_digit, hex}

abbrev pub is_hex : ℕ → Bool
is_hex c = (leb b'0' c && leb c b'9') || (leb b'a' c && leb c b'f')

abbrev pub hex_value : ℕ → ℕ
hex_value c = if leb c b'9' then c - b'0' else c - b'a' + 10

-- Reads digits up to a CRLF, behind those that were read before.
unfoldable pub read_size : ℕ → Text → Option (ℕ × Text)
read_size n [] = none
read_size n (c ∷ []) = none
read_size n (c ∷ (d ∷ cs)) =
    let rest = read_size (n * 16 + hex_value c) (d ∷ cs) in
    if is_hex c then rest else if (c == 13) && (d == 10) then some (n, cs) else none

-- The number that digits stand for, behind digits read before.
abbrev value : ℕ → Text → ℕ
value n [] = n
value n (c ∷ cs) = value (n * 16 + hex_value c) cs

value-append : (n : ℕ) (s t : Text) → value n (s ++ t) ≡ value (value n s) t
value-append n [] t = refl
value-append n (c ∷ s) t = value-append (n * 16 + hex_value c) s t

hex_digit_lem : (d : ℕ) → d < 16 → (is_hex (hex_digit d) ≡ true) × (hex_value (hex_digit d) ≡ d)
unfolding hex_digit
hex_digit_lem d h = (ground arith, ground arith)

value-hex : (fuel n : ℕ) → n < fuel → value 0 (hex fuel n) ≡ n
unfolding hex
value-hex zero n h = elim h [ ]
value-hex (suc fuel) n h = elim (Bool-cases (ltb n 16)) [
  | inl e ↦ rw e (rw (hex_digit_lem n (ground arith)).1 (omega arith))
  | inr e ↦ rw e (
      value-append 0 (hex fuel (n / 16)) (hex_digit (n % 16) ∷ [])
      ∙ rw (value-hex fuel (n / 16) (ground arith))
          (rw ((hex_digit_lem (n % 16) (omega arith)).1) (omega arith)))
]

abbrev pub IsHex : ℕ → Type 0
IsHex c = is_hex c ≡ true

pub hex_digits : (fuel n : ℕ) → All IsHex (hex fuel n)
unfolding hex
hex_digits zero n = tt
hex_digits (suc fuel) n = elim (Bool-cases (ltb n 16)) [
  | inl e ↦ rw e ((hex_digit_lem n (ground arith)).0, tt)
  | inr e ↦ rw e (
      All-append IsHex (hex fuel (n / 16)) (hex_digit (n % 16) ∷ []) (hex_digits fuel (n / 16))
        ((hex_digit_lem (n % 16) (omega arith)).0, tt))
]

read_size-digits :
    (n : ℕ) (s : Text) (t : Text)
    → All IsHex s
    → read_size n (s ++ 13 ∷ 10 ∷ t) ≡ some (value n s, t)
unfolding read_size
read_size-digits n [] t a = refl
read_size-digits n (c ∷ []) t a = rw a.0 (read_size-digits (n * 16 + hex_value c) [] t tt)
read_size-digits n (c ∷ (d ∷ s)) t a =
    rw a.0 (read_size-digits (n * 16 + hex_value c) (d ∷ s) t a.1)

-- A size that is written is read back, up to its CRLF.
pub read_size-hex : (n : ℕ) (t : Text) → read_size 0 (hex (suc n) n ++ 13 ∷ 10 ∷ t) ≡ some (n, t)
read_size-hex n t =
    read_size-digits 0 (hex (suc n) n) t (hex_digits (suc n) n)
    ∙ ap (λ k. some (k, t)) (value-hex (suc n) n (omega arith))

append_cons_nonempty : (s : Text) (c : ℕ) (t : Text) → s ++ c ∷ t ≢ []
append_cons_nonempty [] c t e = cc (e)
append_cons_nonempty (d ∷ s) c t e = cc (e)

pub hex-nonempty : (fuel n : ℕ) → hex (suc fuel) n ≢ []
unfolding hex
hex-nonempty fuel n = elim (Bool-cases (ltb n 16)) [
  | inl e ↦ rw e (append_cons_nonempty [] _ [])
  | inr e ↦ rw e (append_cons_nonempty (hex fuel (n / 16)) _ [])
]
