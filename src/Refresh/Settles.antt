-- ===== src/Refresh/Settles.antt =====
-- The steps of refreshFile (pkg/fscache/evaluate.go) before its download.
use go_aptcacher.Base.{
  ℕ, ◌≡◌, refl, ◌∙◌, ◌⊎◌, ltb, inl, inr, Bool, true, false, not, ◌&&◌, [], ◌∷◌, Option, none, some,
  arith, if◌then◌else◌, Bool-cases, ◌==◌, ==_iff,
}
use go_aptcacher.Base.Text.{Text, text_eq}
use go_aptcacher.LocalPath.{Url}
use go_aptcacher.Locks.{Time}
use go_aptcacher.Access.{AccessEntry}
use go_aptcacher.Refresh.Download.{Response}
use go_aptcacher.Refresh.Answer.{
  State, Tools, checked, handle_refresh_status, compare_last_modified, resolve_remote_last_modified,
  is_unchanged_by_etag, evaluate_not_modified,
}

module _ (t : Tools) where
  checked-same :
      (protocol : ℕ) (local_file : Url) (s : State)
      → ((checked t protocol local_file s).files ≡ s.files)
        × ((checked t protocol local_file s).stats ≡ s.stats)
  unfolding checked
  checked-same protocol local_file s = (refl, refl)

  pub handle_refresh_status-same :
      (status protocol : ℕ) (local_file : Url) (s : State)
      → ((handle_refresh_status t status protocol local_file s).1.files ≡ s.files)
        × ((handle_refresh_status t status protocol local_file s).1.stats ≡ s.stats)
  unfolding handle_refresh_status
  handle_refresh_status-same status protocol local_file s = (ground arith, ground arith)

  pub handle_refresh_status-goes_on :
      (status protocol : ℕ) (local_file : Url) (s : State)
      → (handle_refresh_status t status protocol local_file s).0 ≡ false
      → (status ≡ 200) × ((handle_refresh_status t status protocol local_file s).1 ≡ s)
  unfolding handle_refresh_status
  handle_refresh_status-goes_on status protocol local_file s h =
      (ground (arith, ==_iff status 200), ground arith)

  -- Either the state is the same, or the response is taken as unchanged and the files are the same.
  abbrev pub Settles : State → Bool → State → Type 0
  Settles s settled after =
      (after.files ≡ s.files) × (after.stats ≡ s.stats) × ((settled ≡ true) ⊎ (after ≡ s))

  compare_last_modified-Settles :
      (o : Option Time) (local_file : Url) (protocol : ℕ) (last_access : AccessEntry) (s : State)
      → Settles s
          (compare_last_modified t o local_file protocol last_access s).0.1
          (compare_last_modified t o local_file protocol last_access s).1
  unfolding compare_last_modified
  compare_last_modified-Settles none local_file protocol last_access s = (refl, refl, inr refl)
  compare_last_modified-Settles (some parsed) local_file protocol last_access s =
      elim (Bool-cases (
        not (last_access.remote_last_modified == 0)
        && ltb parsed last_access.remote_last_modified)) [
          | inl h ↦ rw h (refl, refl, inl refl)
          | inr h ↦ rw h (refl, refl, inr refl)
        ]

  resolve_remote_last_modified-Settles :
      (header : Text) (local_file : Url) (protocol : ℕ) (last_access : AccessEntry) (s : State)
      → Settles s
          (resolve_remote_last_modified t header local_file protocol last_access s).0.1
          (resolve_remote_last_modified t header local_file protocol last_access s).1
  unfolding resolve_remote_last_modified
  resolve_remote_last_modified-Settles [] local_file protocol last_access s = (refl, refl, inr refl)
  resolve_remote_last_modified-Settles (c ∷ header) local_file protocol last_access s =
      compare_last_modified-Settles (t.parse_time (c ∷ header)) local_file protocol last_access s

  is_unchanged_by_etag-Settles :
      (etag : Text) (protocol : ℕ) (local_file : Url) (previous : Text) (s : State)
      → Settles s
          (is_unchanged_by_etag t etag protocol local_file previous s).0
          (is_unchanged_by_etag t etag protocol local_file previous s).1
  unfolding is_unchanged_by_etag
  is_unchanged_by_etag-Settles [] protocol local_file previous s = (refl, refl, inr refl)
  is_unchanged_by_etag-Settles (c ∷ etag) protocol local_file previous s =
      elim (Bool-cases (text_eq (c ∷ etag) previous)) [
        | inl h ↦ rw h (refl, refl, inl refl)
        | inr h ↦ rw h (refl, refl, inr refl)
      ]

  Settles-if :
      (s d a : State) (b k : Bool) (time : Time) (etag : Text)
      → Settles s b d
      → Settles d k a
      → (let x : (Time × Text × Bool) × State =
            if b then ((time, [], true), d) else ((time, etag, k), a) in
          Settles s x.0.2 x.1)
  Settles-if s d a true k time etag h h' = (h.0, h.1, inl refl)
  Settles-if s d a false k time etag h h' =
      let same : d ≡ s = elim h.2 [ inl x ↦ absurd (cc (x)) | inr x ↦ x ] in
      (h'.0 ∙ h.0, h'.1 ∙ h.1, elim h'.2 [ inl x ↦ inl x | inr x ↦ inr (x ∙ same) ])

  pub evaluate_not_modified-Settles :
      (resp : Response) (local_file : Url) (protocol : ℕ) (last_access : AccessEntry) (s : State)
      → Settles s
          (evaluate_not_modified t resp local_file protocol last_access s).0.2
          (evaluate_not_modified t resp local_file protocol last_access s).1
  unfolding evaluate_not_modified
  evaluate_not_modified-Settles resp local_file protocol last_access s =
      let dated =
        resolve_remote_last_modified t resp.last_modified local_file protocol last_access s in
      let tagged = is_unchanged_by_etag t resp.etag protocol local_file last_access.etag dated.1 in
      let of_date =
        resolve_remote_last_modified-Settles resp.last_modified local_file protocol last_access s in
      let of_tag =
        is_unchanged_by_etag-Settles resp.etag protocol local_file last_access.etag dated.1 in
      Settles-if s dated.1 tagged.1 dated.0.1 tagged.0 dated.0.0 resp.etag of_date of_tag

  pub Settles-same : (s after : State) {b : Bool} → Settles s b after → b ≡ false → after ≡ s
  Settles-same s after h k = elim h.2 [ inl x ↦ absurd (cc (x, k)) | inr x ↦ x ]
