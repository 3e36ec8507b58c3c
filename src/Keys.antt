-- ===== src/Keys.antt =====
-- The keys of the maps of pkg/fscache/access_cache.go: accessCacheKey, and the key of the locks.
use go_aptcacher.Base.{
  ℕ, zero, suc, ◌+◌, ◌-◌, ◌*◌, ◌/◌, ◌%◌, ◌≤◌, ◌<◌, ◌≡◌, ◌≢◌, refl, sym, ap, ◌∙◌, [], ◌∷◌, ◌++◌,
  arith, ltb, if◌then◌else◌, All, All-append, inl, inr, Bool-cases,
}
use go_aptcacher.Base.Text.{Text}

-- strconv.Itoa of a number that is not negative, with more fuel than it has digits.
unfoldable pub decimal : ℕ → ℕ → Text
decimal zero n = []
decimal (suc fuel) n =
    let front = decimal fuel (n / 10) in
    if ltb n 10 then (b'0' + n) ∷ [] else front ++ (b'0' + n % 10) ∷ []

unfoldable pub itoa : ℕ → Text
unfolding decimal
itoa n = decimal (suc n) n

abbrev pub bar : ℕ
bar = b'|'

-- accessCacheKey
unfoldable pub access_cache_key : ℕ → Text → Text → Text
unfolding itoa
access_cache_key protocol domain path = itoa protocol ++ bar ∷ (domain ++ bar ∷ path)

-- The key of both lock maps, `strconv.Itoa(protocol)+domain+path`.
unfoldable pub lock_key : ℕ → Text → Text → Text
unfolding itoa
lock_key protocol domain path = itoa protocol ++ (domain ++ path)

-- The byte does not occur.
abbrev pub Without : ℕ → Text → Type 0
Without b = All (λ c. c ≢ b)

pub append_bar_injective :
    (b : ℕ) (s s' t t' : Text)
    → Without b s
    → Without b s'
    → s ++ b ∷ t ≡ s' ++ b ∷ t'
    → (s ≡ s') × (t ≡ t')
append_bar_injective b [] [] t t' h h' e = (refl, cc)
append_bar_injective b [] (c ∷ s') t t' h h' e = absurd (h'.0 (cc))
append_bar_injective b (c ∷ s) [] t t' h h' e = absurd (h.0 (cc))
append_bar_injective b (c ∷ s) (d ∷ s') t t' h h' e =
    let (same, rest) = append_bar_injective b s s' t t' h.1 h'.1 (cc) in (cc, rest)

-- The number that a decimal text stands for, behind digits read before.
value : ℕ → Text → ℕ
value n [] = n
value n (c ∷ cs) = value (n * 10 + (c - b'0')) cs

value-append : (n : ℕ) (s t : Text) → value n (s ++ t) ≡ value (value n s) t
unfolding value
value-append n [] t = refl
value-append n (c ∷ s) t = value-append (n * 10 + (c - b'0')) s t

value-decimal : (fuel n : ℕ) → n < fuel → value 0 (decimal fuel n) ≡ n
unfolding decimal
value-decimal zero n h = elim h [ ]
value-decimal (suc fuel) n h = elim (Bool-cases (ltb n 10)) [
  | inl e ↦ rw e (unfold value in ground arith)
  | inr e ↦ rw e (
      value-append 0 (decimal fuel (n / 10)) ((b'0' + n % 10) ∷ [])
      ∙ rw (value-decimal fuel (n / 10) (ground arith)) (unfold value in ground arith))
]

itoa_injective : (m n : ℕ) → itoa m ≡ itoa n → m ≡ n
unfolding itoa
itoa_injective m n e =
    sym (value-decimal (suc m) m (omega arith))
    ∙ ap (value 0) e
    ∙ value-decimal (suc n) n (omega arith)

IsDigit : ℕ → Type 0
IsDigit c = (b'0' ≤ c) × (c ≤ b'9')

decimal_digits : (fuel n : ℕ) → All IsDigit (decimal fuel n)
unfolding decimal IsDigit
decimal_digits zero n = tt
decimal_digits (suc fuel) n = elim (Bool-cases (ltb n 10)) [
  | inl e ↦ rw e ((omega arith, ground arith), tt)
  | inr e ↦ rw e (
      All-append IsDigit (decimal fuel (n / 10)) ((b'0' + n % 10) ∷ [])
        (decimal_digits fuel (n / 10)) ((omega arith, omega arith), tt))
]

digits-Without : (s : Text) → All IsDigit s → Without bar s
unfolding IsDigit
digits-Without [] a = tt
digits-Without (c ∷ s) a = ((omega arith), digits-Without s a.1)

-- Two entries of the access cache share a key only if protocol, domain and path are the same,
-- for domains that hold no vertical bar.
pub access_cache_key_injective :
    (p q : ℕ) (d e s t : Text)
    → Without bar d
    → Without bar e
    → access_cache_key p d s ≡ access_cache_key q e t
    → (p ≡ q) × (d ≡ e) × (s ≡ t)
unfolding access_cache_key
access_cache_key_injective p q d e s t hd he h =
    let digits = λ (n : ℕ). digits-Without (itoa n) (unfold itoa in decimal_digits (suc n) n) in
    let (protocols, rest) =
      append_bar_injective bar (itoa p) (itoa q) _ _ (digits p) (digits q) h in
    let (domains, paths) = append_bar_injective bar d e s t hd he rest in
    (itoa_injective p q protocols, domains, paths)

itoa_digit : (p : ℕ) → p ≤ 1 → itoa p ≡ (b'0' + p) ∷ []
unfolding itoa
itoa_digit p h = ground arith

first_byte : {a b : ℕ} {s t : Text} → a ∷ s ≡ b ∷ t → a ≡ b
first_byte h = cc

-- Two locks share a key only if protocol, domain and path are the same, for the protocol numbers 0
-- and 1 of DetermineProtocol, domains with no slash (as a DNS name has none), and paths that begin
-- with a slash.
lock_key_injective :
    (p q : ℕ) (d e s t : Text)
    → p ≤ 1
    → q ≤ 1
    → Without b'/' d
    → Without b'/' e
    → lock_key p d (b'/' ∷ s) ≡ lock_key q e (b'/' ∷ t)
    → (p ≡ q) × (d ≡ e) × (s ≡ t)
unfolding lock_key
lock_key_injective p q d e s t hp hq hd he h =
    let same : (b'0' + p) ∷ (d ++ b'/' ∷ s) ≡ (b'0' + q) ∷ (e ++ b'/' ∷ t) =
      cc (h, itoa_digit p hp, itoa_digit q hq) in
    let (domains, paths) = append_bar_injective b'/' d e s t hd he (cc) in
    (omega (arith, first_byte same), domains, paths)
