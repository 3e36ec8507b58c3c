-- ===== src/Intercept/Der.antt =====
-- The DER of the extension of a revocation list: derLen, derTLV and buildIssuingDistributionPoint of
-- pkg/httpsintercept/httpsintercept.go.
use go_aptcacher.Base.{
  ℕ, zero, suc, ◌+◌, ◌-◌, ◌*◌, ◌/◌, ◌%◌, ◌^◌, ◌<◌, ◌≤◌, ◌≡◌, refl, ap, ◌∙◌, inl, inr, Bool, true,
  false, not, ◌&&◌, [], ◌∷◌, ◌++◌, Option, none, some, arith, ltb, leb, if◌then◌else◌, Bool-cases,
  length,
}
use mathlib.Core.List.{append_assoc}
use go_aptcacher.Base.Text.{Text}

-- The loop of derLen, on fuel: the bytes of a number in front of others, the highest one first.
unfoldable pub length_bytes : ℕ → ℕ → Text → Text
length_bytes zero x tmp = tmp
length_bytes (suc f) x tmp =
    let rest = length_bytes f (x / 256) (x % 256 ∷ tmp) in if ltb 0 x then rest else tmp

-- derLen; `0x80 | n` is a sum, as n is less than 128.
unfoldable pub der_len : ℕ → Text
unfolding length_bytes
der_len n =
    if ltb n 128 then n ∷ [] else let tmp = length_bytes n n [] in (128 + length tmp % 128) ∷ tmp

-- derTLV
unfoldable pub der_tlv : ℕ → Text → Text
unfolding der_len
der_tlv tag content = tag ∷ (der_len (length content) ++ content)

unfoldable pub all_ascii : Text → Bool
all_ascii [] = true
all_ascii (c ∷ cs) = leb c 127 && all_ascii cs

abbrev pub der_flag : Bool → ℕ → Text
der_flag b tag = if b then tag ∷ 1 ∷ 255 ∷ [] else []

-- buildIssuingDistributionPoint
unfoldable pub build_issuing_distribution_point : Text → Bool → Bool → Bool → Option Text
unfolding der_tlv all_ascii
build_issuing_distribution_point uri only_user only_ca indirect =
    if only_user && only_ca
    then none
    else if not (all_ascii uri)
    then none
    else let dp = der_tlv 160 (der_tlv 160 (der_tlv 134 uri)) in
      some (
        der_tlv 48
          (dp ++ (der_flag only_user 129 ++ (der_flag only_ca 130 ++ der_flag indirect 132))))

-- A reader of DER: the value of bytes, behind a value that is read, and a number of bytes in front.
unfoldable pub value_of : ℕ → Text → ℕ
value_of v [] = v
value_of v (b ∷ bs) = value_of (v * 256 + b) bs

unfoldable pub split_at : ℕ → Text → Option (Text × Text)
split_at zero s = some ([], s)
split_at (suc n) [] = none
split_at (suc n) (c ∷ s) = elim (split_at n s) [ none ↦ none | some p ↦ some (c ∷ p.0, p.1) ]

abbrev pub with_tag : ℕ → Option (Text × Text) → Option (ℕ × Text × Text)
with_tag tag none = none
with_tag tag (some p) = some (tag, p.0, p.1)

unfoldable pub read_content : ℕ → Option (Text × Text) → Option (ℕ × Text × Text)
unfolding split_at value_of
read_content tag none = none
read_content tag (some p) = with_tag tag (split_at (value_of 0 p.0) p.1)

-- The tag, the content and what follows.
unfoldable pub read_tlv : Text → Option (ℕ × Text × Text)
unfolding read_content
read_tlv [] = none
read_tlv (tag ∷ []) = none
read_tlv (tag ∷ b ∷ s) =
    read_content tag (if ltb b 128 then some (b ∷ [], s) else split_at (b - 128) s)

split_at-append : (s t : Text) → split_at (length s) (s ++ t) ≡ some (s, t)
unfolding split_at
split_at-append [] t = refl
split_at-append (c ∷ s) t = rw (split_at-append s t) refl

value_of-length_bytes :
    (f x : ℕ) (tmp : Text) → x ≤ f → value_of 0 (length_bytes f x tmp) ≡ value_of x tmp
unfolding length_bytes
value_of-length_bytes zero x tmp h = ap (λ v. value_of v tmp) (omega (arith, h))
value_of-length_bytes (suc f) x tmp h = elim (Bool-cases (ltb 0 x)) [
  | inl e ↦ rw e (
      value_of-length_bytes f (x / 256) (x % 256 ∷ tmp) (ground (arith, h, e))
      ∙ (unfold value_of in ap (λ v. value_of v tmp) (omega arith)))
  | inr e ↦ rw e (ap (λ v. value_of v tmp) (ground (arith, e)))
]

fewer : (k x : ℕ) → x < 256 ^ suc k → x / 256 < 256 ^ k
fewer k x h = omega (arith, h)

length-length_bytes :
    (k f x : ℕ) (tmp : Text) → x < 256 ^ k → length (length_bytes f x tmp) ≤ k + length tmp
unfolding length_bytes
length-length_bytes k zero x tmp h = omega arith
length-length_bytes zero (suc f) x tmp h = elim (Bool-cases (ltb 0 x)) [
  | inl e ↦ absurd (ground (arith, h, e))
  | inr e ↦ rw e (omega arith)
]
length-length_bytes (suc k) (suc f) x tmp h = elim (Bool-cases (ltb 0 x)) [
  | inl e ↦ rw e (omega (arith, length-length_bytes k f (x / 256) (x % 256 ∷ tmp) (fewer k x h)))
  | inr e ↦ rw e (omega arith)
]

read_content-der :
    (tag : ℕ) (bytes content rest : Text)
    → value_of 0 bytes ≡ length content
    → read_content tag (some (bytes, content ++ rest)) ≡ some (tag, content, rest)
unfolding read_content
read_content-der tag bytes content rest h =
    ap (λ n. with_tag tag (split_at n (content ++ rest))) h
    ∙ ap (with_tag tag) (split_at-append content rest)

read_long :
    (tag b : ℕ) (tmp content rest : Text)
    → length tmp < 128
    → b ≡ 128 + length tmp % 128
    → value_of 0 tmp ≡ length content
    → read_tlv (tag ∷ b ∷ (tmp ++ (content ++ rest))) ≡ some (tag, content, rest)
unfolding read_tlv
read_long tag b tmp content rest h e v =
    let long : ltb b 128 ≡ false = ground (arith, h, e) in
    let count : b - 128 ≡ length tmp = omega (arith, h, e) in
    rw long (
      rw count
        (rw (split_at-append tmp (content ++ rest)) (read_content-der tag tmp content rest v)))

read_short :
    (tag b : ℕ) (content rest : Text)
    → ltb b 128 ≡ true
    → b ≡ length content
    → read_tlv (tag ∷ b ∷ (content ++ rest)) ≡ some (tag, content, rest)
unfolding read_tlv
read_short tag b content rest h e =
    rw h (read_content-der tag (b ∷ []) content rest (unfold value_of in omega (arith, e)))

-- A DER reader gets back the tag, the content and what follows from what derTLV writes, for each
-- content whose length is a number of type int: the short form of a length below 128, and else the long
-- form, in which no length takes more than eight bytes.
pub read_tlv-der_tlv :
    (tag : ℕ) (content rest : Text)
    → length content < 2 ^ 63
    → read_tlv (der_tlv tag content ++ rest) ≡ some (tag, content, rest)
unfolding der_tlv der_len
read_tlv-der_tlv tag content rest h =
    let n = length content in
    let tmp = length_bytes n n [] in
    elim (Bool-cases (ltb n 128)) [
      | inl e ↦ rw e (read_short tag n content rest e refl)
      | inr e ↦ rw e (
          ap (λ t. read_tlv (tag ∷ (128 + length tmp % 128) ∷ t)) (append_assoc tmp content rest)
          ∙ read_long tag (128 + length tmp % 128) tmp content rest
              (omega (arith, length-length_bytes 8 n n [] (omega (arith, h)))) refl
              (value_of-length_bytes n n [] (omega arith) ∙ (unfold value_of in refl)))
    ]
