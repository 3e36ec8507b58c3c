-- ===== src/Cleaner/Found.antt =====
-- The InRelease files that cmd/goaptcacher/repoverify.go finds, and those that New
-- (pkg/debrepocleaner/debrepocleaner.go) reads.
use mathlib.Core.List.{append_assoc}
use go_aptcacher.Base.{
  ◌≡◌, refl, ap, ◌∙◌, true, false, List, [], ◌∷◌, ◌++◌, Option, some, All, All-append,
}
use go_aptcacher.Base.Text.{Text, codes, text_eq, text_eq_refl, is_empty}
use go_aptcacher.FilePath.{render, dir, base, dot}
use go_aptcacher.FilePath.Normal.{IsElement}
use go_aptcacher.FilePath.Dir.{dir-render, base-render}
use go_aptcacher.FilePath.Joined.{join_paths-render}
use go_aptcacher.Locks.{Time}
use go_aptcacher.Cleaner.Release.{new, read_contents, fresh_cleanup}
use go_aptcacher.Cleaner.Repositories.{cached_repository_from_in_release_path}

dists-IsElement : IsElement (codes "dists")
unfolding text_eq
dists-IsElement = record {
  no_slash = (refl, (refl, (refl, (refl, (refl, tt)))));
  not_empty = refl;
  not_dot = refl;
  not_dot_dot = refl;
}

in_release-IsElement : IsElement (codes "InRelease")
unfolding text_eq
in_release-IsElement = record {
  no_slash = (refl, (refl, (refl, (refl, (refl, (refl, (refl, (refl, (refl, tt)))))))));
  not_empty = refl;
  not_dot = refl;
  not_dot_dot = refl;
}

is_empty-text_eq : (s : Text) → text_eq s [] ≡ false → is_empty s ≡ false
unfolding text_eq
is_empty-text_eq [] e = e
is_empty-text_eq (c ∷ s) e = refl

-- The repository of a path, by its directories.
repository_at :
    (path distrib_path dists_path root distrib : Text)
    → dir path ≡ distrib_path
    → dir distrib_path ≡ dists_path
    → dir dists_path ≡ root
    → base distrib_path ≡ distrib
    → base dists_path ≡ codes "dists"
    → text_eq root dot ≡ false
    → is_empty root ≡ false
    → IsElement distrib
    → cached_repository_from_in_release_path path
      ≡ some (record { root_path = root; distrib = distrib })
unfolding cached_repository_from_in_release_path
repository_at path distrib_path dists_path root distrib p q r s t not_dot not_empty e =
    rw
      (
        p,
        q,
        r,
        s,
        t,
        text_eq_refl (codes "dists"),
        not_dot,
        not_empty,
        e.not_dot,
        is_empty-text_eq distrib e.not_empty,
      )
      refl

module _ (top : List Text) (distrib : Text) (h : All IsElement top) (e : IsElement distrib) where
  abbrev dists : List Text
  dists = top ++ codes "dists" ∷ []

  abbrev below : List Text
  below = dists ++ distrib ∷ []

  below-IsElement : All IsElement below
  below-IsElement =
      All-append IsElement dists (distrib ∷ [])
        (All-append IsElement top (codes "dists" ∷ []) h (dists-IsElement, tt)) (e, tt)

  cached_repository-render :
      cached_repository_from_in_release_path (render true (below ++ codes "InRelease" ∷ []))
      ≡ some (record { root_path = render true top; distrib = distrib })
  cached_repository-render =
      repository_at (render true (below ++ codes "InRelease" ∷ [])) (render true below)
        (render true dists) (render true top) distrib
        (dir-render below (codes "InRelease") below-IsElement in_release-IsElement)
        (dir-render dists distrib
          (All-append IsElement top (codes "dists" ∷ []) h (dists-IsElement, tt)) e)
        (dir-render top (codes "dists") h dists-IsElement) (base-render dists distrib e)
        (base-render top (codes "dists") dists-IsElement) (unfold render text_eq in refl)
        (unfold render in refl) e

-- An InRelease file below dists is found as the repository whose root is the directory above dists and
-- whose distribution is the name behind it, and that is the repository for which New reads this
-- very file: for each rooted and cleaned path, with any names in front of dists, the root
-- directory itself included.
pub new-cached_repository :
    (top : List Text) (distrib : Text)
    → All IsElement top
    → IsElement distrib
    → (cached_repository_from_in_release_path
          (render true (top ++ codes "dists" ∷ distrib ∷ codes "InRelease" ∷ []))
        ≡ some (record { root_path = render true top; distrib = distrib }))
      × ((read_file : Text → Option Text) (parse_date : Text → Option Time)
          → new parse_date read_file (render true top) distrib
            ≡ read_contents parse_date
                (read_file (render true (top ++ codes "dists" ∷ distrib ∷ codes "InRelease" ∷ [])))
                (fresh_cleanup (render true top) distrib))
new-cached_repository top distrib h e = (
  ap (λ (x : List Text). cached_repository_from_in_release_path (render true x)) (simp append_assoc)
      ∙ cached_repository-render top distrib h e,
  λ f parse_date.
      unfold new in
      ap (λ x. read_contents parse_date (f x) (fresh_cleanup (render true top) distrib))
        (join_paths-render top (codes "dists") (distrib ∷ codes "InRelease" ∷ []) h
          (dists-IsElement, (e, (in_release-IsElement, tt)))),
)
