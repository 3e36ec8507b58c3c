-- ===== src/FilePath/Split.antt =====
-- Splitting a path at its slashes, and joining it again.
use go_aptcacher.Base.{
  ℕ, ◌≡◌, refl, sym, ap, ◌∙◌, false, List, [], ◌∷◌, ◌++◌, arith, ◌==◌, inl, inr, Bool-cases, All,
}
use go_aptcacher.Base.Text.{Text}
use go_aptcacher.FilePath.{add_to_first, split, join}

-- The text has no slash.
abbrev pub NoSlash : Text → Type 0
NoSlash = All (λ c. (c == b'/') ≡ false)

add_to_first-append :
    (c : ℕ) (s : Text) (ps : List Text)
    → add_to_first c (split s) ++ ps ≡ add_to_first c (split s ++ ps)
unfolding add_to_first split
add_to_first-append c [] ps = refl
add_to_first-append c (d ∷ s) ps = ground arith

pub split-append : (s t : Text) → split (s ++ b'/' ∷ t) ≡ split s ++ split t
unfolding split
split-append [] t = refl
split-append (c ∷ s) t = elim (Bool-cases (c == b'/')) [
  | inl e ↦ rw e (ap (λ (ps : List Text). [] ∷ ps) (split-append s t))
  | inr e ↦ rw e (ap (add_to_first c) (split-append s t) ∙ sym (add_to_first-append c s (split t)))
]

pub split-NoSlash : (s : Text) → NoSlash s → split s ≡ s ∷ []
unfolding split add_to_first
split-NoSlash [] h = refl
split-NoSlash (c ∷ s) h = rw h.0 (rw (split-NoSlash s h.1))

pub split-join : (p : Text) (ps : List Text) → All NoSlash (p ∷ ps) → split (join (p ∷ ps)) ≡ p ∷ ps
unfolding join
split-join p [] h = split-NoSlash p h.0
split-join p (q ∷ ps) h =
    split-append p (join (q ∷ ps)) ∙ rw (split-NoSlash p h.0) (rw (split-join q ps h.1))
