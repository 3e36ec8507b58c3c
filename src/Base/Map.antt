-- ===== src/Base/Map.antt =====
-- Go maps with string keys, as association lists. `range` visits the list in its order; Go leaves
-- the order open, so what is stated of a loop over a map does not depend on it.
use mathlib.Core.Path.{◌≡◌, refl, ◌∙◌}
use mathlib.Core.List.{List, [], ◌∷◌}
use mathlib.Core.Logic.{◌≢◌}
use mathlib.Core.Option.{Option, none, some}
use native.Mathlib.Omega.{arith}
use mathlib.Core.Bool.{false}
use mathlib.Core.Logic.{inl, inr}
use go_aptcacher.Base.Tests.{if◌then◌else◌, Bool-cases}
use go_aptcacher.Base.Text.{Text, text_eq, text_eq_iff, text_eq_refl, text_eq_comm}

abbrev pub Map {ℓ} : Type ℓ → Type ℓ
Map V = List (Text × V)

module _ {ℓ} {V : Type ℓ} where
  unfoldable pub lookup : Text → Map V → Option V
  lookup k [] = none
  lookup k ((j, v) ∷ m) = if text_eq j k then some v else lookup k m

  -- m[k] = v
  unfoldable pub insert : Text → V → Map V → Map V
  insert k v [] = (k, v) ∷ []
  insert k v ((j, w) ∷ m) = if text_eq j k then (k, v) ∷ m else (j, w) ∷ insert k v m

  -- delete(m, k)
  unfoldable pub delete : Text → Map V → Map V
  delete k [] = []
  delete k ((j, v) ∷ m) = let rest = delete k m in if text_eq j k then rest else (j, v) ∷ rest

  pub lookup-insert :
      (k j : Text) (v : V) (m : Map V)
      → lookup j (insert k v m) ≡ (if text_eq k j then some v else lookup j m)
  unfolding lookup insert
  lookup-insert k j v [] = refl
  lookup-insert k j v ((i, w) ∷ m) =
      ground (arith, text_eq_iff k j, text_eq_iff i k, text_eq_iff i j, lookup-insert k j v m)

  pub lookup-delete :
      (k j : Text) (m : Map V) → lookup j (delete k m) ≡ (if text_eq k j then none else lookup j m)
  unfolding lookup delete
  lookup-delete k j [] = ground arith
  lookup-delete k j ((i, w) ∷ m) =
      ground (arith, text_eq_iff k j, text_eq_iff i k, text_eq_iff i j, lookup-delete k j m)

  pub lookup-insert_self : (k : Text) (v : V) (m : Map V) → lookup k (insert k v m) ≡ some v
  lookup-insert_self k v m = simp (lookup-insert, text_eq_refl)

  pub lookup-insert_ne :
      (k j : Text) (v : V) (m : Map V) → k ≢ j → lookup j (insert k v m) ≡ lookup j m
  lookup-insert_ne k j v m ne = ground (arith, lookup-insert k j v m, text_eq_iff k j)

  pub lookup-delete_self : (k : Text) (m : Map V) → lookup k (delete k m) ≡ none
  lookup-delete_self k m = simp (lookup-delete, text_eq_refl)

  pub lookup-delete_ne : (k j : Text) (m : Map V) → k ≢ j → lookup j (delete k m) ≡ lookup j m
  lookup-delete_ne k j m ne = ground (arith, lookup-delete k j m, text_eq_iff k j)

  unfoldable pub keys : Map V → List Text
  keys [] = []
  keys ((k, v) ∷ m) = k ∷ keys m

-- The key is not among the keys.
abbrev pub Absent : Text → List Text → Type 0
Absent k [] = Unit
Absent k (j ∷ js) = (text_eq k j ≡ false) × Absent k js

-- No key occurs twice: what Go's maps are by construction.
abbrev pub Distinct : List Text → Type 0
Distinct [] = Unit
Distinct (k ∷ ks) = Absent k ks × Distinct ks

module _ {ℓ} {V : Type ℓ} where
  pub Absent-insert :
      (j k : Text) (v : V) (m : Map V)
      → text_eq j k ≡ false
      → Absent j (keys m)
      → Absent j (keys (insert k v m))
  unfolding keys insert
  Absent-insert j k v [] ne a = (ne, tt)
  Absent-insert j k v ((i, w) ∷ m) ne a = elim (Bool-cases (text_eq i k)) [
    | inl e ↦ rw e (ne, a.1)
    | inr e ↦ rw e (a.0, Absent-insert j k v m ne a.1)
  ]

  pub Distinct-insert :
      (k : Text) (v : V) (m : Map V) → Distinct (keys m) → Distinct (keys (insert k v m))
  unfolding keys insert
  Distinct-insert k v [] d = (tt, tt)
  Distinct-insert k v ((i, w) ∷ m) d = elim (Bool-cases (text_eq i k)) [
    | inl e ↦ rw e (rw ((text_eq_iff i k).0 e) at d.0, d.1)
    | inr e ↦ rw e (Absent-insert i k v m e d.0, Distinct-insert k v m d.1)
  ]

module _ {ℓ} {V : Type ℓ} where
  pub lookup-cons :
      (k j : Text) (v : V) (m : Map V)
      → lookup k ((j, v) ∷ m) ≡ (if text_eq j k then some v else lookup k m)
  unfolding lookup
  lookup-cons k j v m = refl

  pub Absent-of_lookup : (k : Text) (m : Map V) → lookup k m ≡ none → Absent k (keys m)
  unfolding keys
  Absent-of_lookup k [] h = tt
  Absent-of_lookup k ((j, v) ∷ m) h = elim (Bool-cases (text_eq j k)) [
    | inl e ↦ absurd (cc (e, lookup-cons k j v m))
    | inr e ↦ (text_eq_comm k j ∙ e, Absent-of_lookup k m (cc (e, lookup-cons k j v m)))
  ]

  pub lookup-of_Absent : (k : Text) (m : Map V) → Absent k (keys m) → lookup k m ≡ none
  unfolding keys
  lookup-of_Absent k [] h = unfold lookup in refl
  lookup-of_Absent k ((j, v) ∷ m) h =
      cc (lookup-cons k j v m, text_eq_comm k j, h.0, lookup-of_Absent k m h.1)

pub ruleset map_laws = (lookup-insert, lookup-delete, text_eq_refl)
