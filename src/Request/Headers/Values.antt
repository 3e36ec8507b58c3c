-- ===== src/Request/Headers/Values.antt =====
-- What the loops over the headers of pkg/fscache/request_get.go add to the values of one header field.
use go_aptcacher.Base.{
  ◌≡◌, refl, sym, ap, ◌∙◌, Bool, true, false, List, [], ◌∷◌, ◌++◌, none, arith, if◌then◌else◌,
  Bool-cases, inl, inr,
}
use mathlib.Core.Path.{subst}
use mathlib.Core.List.{append-nil, append_assoc}
use go_aptcacher.Base.Text.{Text, text_eq, text_eq_iff}
use go_aptcacher.Base.Map.{lookup, lookup-insert, lookup-cons, lookup-of_Absent, keys, Distinct}
use go_aptcacher.Connect.{header_set}
use go_aptcacher.Request.{add_values, add_headers}
use go_aptcacher.Request.Messages.{Header, header_add, values_of}

-- http.Header.Values
abbrev pub all_values : Text → Header → List Text
all_values k h = values_of (lookup k h)

all_values-add :
    (k key v : Text) (h : Header)
    → all_values k (header_add key v h)
      ≡ (if text_eq key k then all_values k h ++ v ∷ [] else all_values k h)
unfolding header_add
all_values-add k key v h = elim (Bool-cases (text_eq key k)) [
  | inl e ↦
      rw (lookup-insert key k (values_of (lookup key h) ++ v ∷ []) h)
        (rw e (rw ((text_eq_iff key k).0 e) refl))
  | inr e ↦ rw (lookup-insert key k (values_of (lookup key h) ++ v ∷ []) h) (rw e refl)
]

all_values-add_values :
    (k key : Text) (vs : List Text) (h : Header)
    → all_values k (add_values key vs h)
      ≡ (if text_eq key k then all_values k h ++ vs else all_values k h)
unfolding add_values
all_values-add_values k key [] h = elim (Bool-cases (text_eq key k)) [
  | inl e ↦ rw e (sym (append-nil (all_values k h)))
  | inr e ↦ rw e refl
]
all_values-add_values k key (v ∷ vs) h =
    all_values-add_values k key vs (header_add key v h) ∙ elim (Bool-cases (text_eq key k)) [
      | inl e ↦ rw e (
          ap (λ (l : List Text). l ++ vs) (all_values-add k key v h ∙ rw e refl)
          ∙ append_assoc (all_values k h) (v ∷ []) vs)
      | inr e ↦ rw e (all_values-add k key v h ∙ rw e refl)
    ]

-- Values that end with the added ones, and nothing to come.
append_last :
    (skipped : Bool) (before values after : List Text)
    → after ≡ (if skipped then before else before ++ values)
    → (if skipped then after else after ++ []) ≡ (if skipped then before else before ++ values)
append_last true before values after h = h
append_last false before values after h = append-nil after ∙ h

module _ (skip : Text → Bool) where
  all_values-added :
      (k key : Text) (values : List Text) (dst : Header)
      → all_values k (if skip key then dst else add_values key values dst) ≡ (
          if skip key
          then all_values k dst
          else if text_eq key k
          then all_values k dst ++ values
          else all_values k dst)
  all_values-added k key values dst = elim (Bool-cases (skip key)) [
    | inl e ↦ rw e refl
    | inr e ↦ rw e (all_values-add_values k key values dst)
  ]

  last_none :
      (k : Text) (dst : Header)
      → all_values k dst ≡ (if skip k then all_values k dst else all_values k dst ++ [])
  last_none k dst = elim (Bool-cases (skip k)) [
    | inl e ↦ rw e refl
    | inr e ↦ rw e (sym (append-nil (all_values k dst)))
  ]

  -- What the loop adds to the values of a header.
  pub all_values-add_headers :
      (k : Text) (src dst : Header)
      → Distinct (keys src)
      → all_values k (add_headers skip src dst)
        ≡ (if skip k then all_values k dst else all_values k dst ++ all_values k src)
  unfolding add_headers keys
  all_values-add_headers k [] dst d = unfold lookup in last_none k dst
  all_values-add_headers k ((key, values) ∷ src) dst d =
      let after : Header = (if skip key then dst else add_values key values dst) in
      let added = all_values-added k key values dst in
      all_values-add_headers k src after d.1 ∙ elim (Bool-cases (text_eq key k)) [
        | inl e ↦
            let same = (text_eq_iff key k).0 e in
            let none_left : all_values k src ≡ [] =
              ap values_of
                (subst (λ (x : Text). lookup x src ≡ none) same (lookup-of_Absent key src d.0)) in
            let here : all_values k ((key, values) ∷ src) ≡ values =
              ap values_of (lookup-cons k key values src) ∙ rw e refl in
            let merged : all_values k after
                ≡ (if skip k then all_values k dst else all_values k dst ++ values) =
              ap (λ (x : Text). all_values k (if skip key then dst else add_values key values dst))
                same
              ∙ (added
                  ∙ (rw e (
                      ap
                        (λ (x : Text).
                          if skip x then all_values k dst else all_values k dst ++ values)
                        same))) in
            rw none_left
              (rw here (append_last (skip k) (all_values k dst) values (all_values k after) merged))
        | inr e ↦
            let there : all_values k ((key, values) ∷ src) ≡ all_values k src =
              ap values_of (lookup-cons k key values src) ∙ rw e refl in
            let merged : all_values k after ≡ all_values k dst = added ∙ rw e (ground arith) in
            rw there (rw merged refl)
      ]

pub all_values-header_set_ne :
    (k key v : Text) (h : Header)
    → text_eq key k ≡ false
    → all_values k (header_set key v h) ≡ all_values k h
unfolding header_set
all_values-header_set_ne k key v h e = rw (lookup-insert key k (v ∷ []) h) (rw e refl)
