-- ===== src/Expire/Complete.antt =====
-- GetUnusedFiles of pkg/fscache/expire.go: the stale entries that it names.
use go_aptcacher.Base.{
  ℕ, ◌≡◌, ◌≢◌, ◌<◌, sym, ap, ◌∙◌, inl, inr, true, not, ◌&&◌, List, [], ◌∷◌, Option, none, some,
  arith, ltb, Bool-cases, if_true, if_false, ◌==◌, ==_iff,
}
use mathlib.Core.Path.{subst}
use mathlib.Core.List.{Memᴰ}
use mathlib.Core.List.Memᴰ.{head, tail}
use go_aptcacher.Base.Text.{Text, text_eq}
use go_aptcacher.Base.Map.{Map, lookup, lookup-cons}
use go_aptcacher.LocalPath.{Url}
use go_aptcacher.Locks.{Time}
use go_aptcacher.Access.{Record, Env, AccessCache}
use go_aptcacher.Access.Flush.{snapshot_access_cache}
use go_aptcacher.Expire.{
  load_access_cache_records_from_disk, collect_access_cache_records, entry_url, add_url,
  unused_records, get_unused_files,
}
use go_aptcacher.Expire.Stale.{Stale, lookup-overlay}

module _ (e : Env) (cutoff : Time) where
  Mem-add_url :
      (u : Url) (o : Option Url) (urls : List Url) → Memᴰ u urls → Memᴰ u (add_url e o urls)
  Mem-add_url u none urls m = m
  Mem-add_url u (some v) urls m = tail m

  named_first :
      (u : Url) (o : Option Url) (urls : List Url) → o ≡ some u → Memᴰ u (add_url e o urls)
  named_first u none urls h = absurd (cc (h))
  named_first u (some v) urls h = head (cc (h))

  in_time : (time : Time) → time ≢ 0 → time < cutoff → (not (time == 0) && ltb time cutoff) ≡ true
  in_time time used old = ground (arith, ==_iff time 0)

  unused_records_complete :
      (m : Map Record) (k : Text) (r : Record) (u : Url)
      → lookup k m ≡ some r
      → r.entry.last_accessed ≢ 0
      → r.entry.last_accessed < cutoff
      → entry_url e r ≡ some u
      → Memᴰ u (unused_records e cutoff m)
  unfolding unused_records
  unused_records_complete [] k r u h used old named = unfold lookup in absurd (cc (h))
  unused_records_complete ((j, q) ∷ m) k r u h used old named = elim (Bool-cases (text_eq j k)) [
    | inl same ↦
        let here : r ≡ q = cc (lookup-cons k j q m, same, h) in
        let expired : (not (q.entry.last_accessed == 0) && ltb q.entry.last_accessed cutoff)
            ≡ true =
          ap (λ (x : Record). not (x.entry.last_accessed == 0) && ltb x.entry.last_accessed cutoff)
            (sym here)
          ∙ in_time r.entry.last_accessed used old in
        subst (λ (x : List Url). Memᴰ u x) (sym (if_true _ _ expired))
          (named_first u (entry_url e q) (unused_records e cutoff m)
            (ap (entry_url e) (sym here) ∙ named))
    | inr other ↦
        let rest =
          unused_records_complete m k r u (cc (lookup-cons k j q m, other, h)) used old named in
        elim (Bool-cases (not (q.entry.last_accessed == 0) && ltb q.entry.last_accessed cutoff)) [
          | inl h' ↦
              subst (λ (x : List Url). Memᴰ u x) (sym (if_true _ _ h'))
                (Mem-add_url u (entry_url e q) (unused_records e cutoff m) rest)
          | inr h' ↦ subst (λ (x : List Url). Memᴰ u x) (sym (if_false _ _ h')) rest
        ]
  ]

  -- With an expiry of at least one day, GetUnusedFiles names the file of every stale entry: one whose
  -- record, in memory or else on the disk, was used, and for the last time before the cutoff.
  pub get_unused_files_complete :
      (c : AccessCache) (days : ℕ) (u : Url)
      → days ≢ 0
      → Stale e cutoff c u
      → Memᴰ u (get_unused_files e days cutoff c)
  unfolding get_unused_files collect_access_cache_records
  get_unused_files_complete c days u some_days s =
      let found =
        lookup-overlay e s.key (snapshot_access_cache c.access_cache)
          (load_access_cache_records_from_disk e c.files)
        ∙ s.is_effective in
      subst (λ (x : List Url). Memᴰ u x)
        (sym (if_false {b = days == 0} _ _ (ground (arith, ==_iff days 0))))
        (unused_records_complete _ s.key s.stale u found s.used s.old s.named)
