-- ===== src/Stats/Day.antt =====
-- The days of pkg/fscache/stats.go: `time.Format` and `time.Parse` with the layout "2006-01-02", and
-- `sort.Strings`.
use go_aptcacher.Base.{
  ℕ, ◌+◌, ◌-◌, ◌*◌, ◌/◌, ◌%◌, ◌≤◌, ◌≡◌, Bool, true, false, not, ◌&&◌, ◌||◌, List, [], ◌∷◌, Option,
  none, some, arith, leb, ltb, ◌==◌, if◌then◌else◌,
}
use go_aptcacher.Base.Text.{Text}

pub record Date : Type 0 where
  pub year : ℕ
  pub month : ℕ
  pub day : ℕ

is_leap : ℕ → Bool
is_leap y = y % 4 == 0 && (not (y % 100 == 0) || y % 400 == 0)

days_in : ℕ → ℕ → ℕ
unfolding is_leap
days_in m y =
    if m == 2
    then (if is_leap y then 29 else 28)
    else if m == 4 || m == 6 || m == 9 || m == 11
    then 30
    else 31

-- A date with a year of four digits.
unfoldable pub is_date : Date → Bool
unfolding days_in
is_date d =
    leb d.year 9999
    && leb 1 d.month
    && leb d.month 12
    && leb 1 d.day
    && leb d.day (days_in d.month d.year)

digit : ℕ → ℕ
digit n = b'0' + n % 10

-- t.Format("2006-01-02")
unfoldable pub format_day : Date → Text
unfolding digit
format_day d =
    digit (d.year / 1000)
    ∷ digit (d.year / 100)
    ∷ digit (d.year / 10)
    ∷ digit d.year
    ∷ b'-'
    ∷ digit (d.month / 10)
    ∷ digit d.month
    ∷ b'-'
    ∷ digit (d.day / 10)
    ∷ digit d.day
    ∷ []

is_digit : ℕ → Bool
is_digit c = leb b'0' c && leb c b'9'

value : ℕ → ℕ
value c = c - b'0'

-- The digits of a day as a date, if they are digits and the date is there.
read_day : (a b c d e f g h : ℕ) → Option Date
unfolding is_digit value is_date
read_day a b c d e f g h =
    let date : Date = record {
      year = value a * 1000 + value b * 100 + value c * 10 + value d;
      month = value e * 10 + value f;
      day = value g * 10 + value h;
    } in
    if is_digit a
      && is_digit b
      && is_digit c
      && is_digit d
      && is_digit e
      && is_digit f
      && is_digit g
      && is_digit h
      && is_date date
    then some date
    else none

-- time.Parse("2006-01-02", s)
unfoldable pub parse_day : Text → Option Date
unfolding read_day
parse_day (a ∷ b ∷ c ∷ d ∷ x ∷ e ∷ f ∷ y ∷ g ∷ h ∷ []) =
    if x == b'-' && y == b'-' then read_day a b c d e f g h else none
parse_day _ = none

-- `s <= t` on strings.
unfoldable pub text_le : Text → Text → Bool
text_le [] t = true
text_le (x ∷ s) [] = false
text_le (x ∷ s) (y ∷ t) = ltb x y || (x == y && text_le s t)

unfoldable pub insert_sorted : Text → List Text → List Text
insert_sorted s [] = s ∷ []
insert_sorted s (t ∷ ts) = if text_le s t then s ∷ t ∷ ts else t ∷ insert_sorted s ts

-- sort.Strings: the keys of a map are distinct, so every sorting method gives this list.
unfoldable pub sort : List Text → List Text
unfolding insert_sorted
sort [] = []
sort (t ∷ ts) = insert_sorted t (sort ts)

is_digit-digit : (n : ℕ) → is_digit (digit n) ≡ true
unfolding is_digit digit
is_digit-digit n = ground arith

four_digits :
    (y : ℕ)
    → y ≤ 9999
    → value (digit (y / 1000)) * 1000
        + value (digit (y / 100)) * 100
        + value (digit (y / 10)) * 10
        + value (digit y)
      ≡ y
unfolding value digit
four_digits y h = omega arith

two_digits : (n : ℕ) → n ≤ 99 → value (digit (n / 10)) * 10 + value (digit n) ≡ n
unfolding value digit
two_digits n h = omega arith

is_date_bounds : (d : Date) → is_date d ≡ true → (d.year ≤ 9999) × (d.month ≤ 99) × (d.day ≤ 99)
unfolding is_date days_in
is_date_bounds d h = ground arith

-- A date that is written is read back.
pub parse_day-format_day : (d : Date) → is_date d ≡ true → parse_day (format_day d) ≡ some d
unfolding parse_day read_day format_day
parse_day-format_day d h =
    let (y, m, n) = is_date_bounds d h in
    simp (is_digit-digit, four_digits d.year y, two_digits d.month m, two_digits d.day n, h)
