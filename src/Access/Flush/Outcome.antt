-- ===== src/Access/Flush/Outcome.antt =====
-- The loop of flushAccessCache of pkg/fscache/access_cache.go over all its keys.
use go_aptcacher.Base.{
  ◌≡◌, refl, sym, ap, ◌∙◌, Bool, true, false, ◌&&◌, ◌||◌, List, [], ◌∷◌, Option, none, some, arith,
  if◌then◌else◌, Bool-cases, inl, inr,
}
use mathlib.Core.Path.{subst}
use go_aptcacher.Base.Text.{Text, text_eq, text_eq_iff}
use go_aptcacher.Base.Map.{Map, lookup, lookup-cons}
use go_aptcacher.LocalPath.{Url}
use go_aptcacher.Access.{Record, Env, AccessCache}
use go_aptcacher.Access.Disk.{load_access_cache_record, Fault}
use go_aptcacher.Access.Disk.RoundTrip.{ReadsBack}
use go_aptcacher.Access.Flush.{dirty_keys, flush_found, flush_keys, flush_access_cache}
use go_aptcacher.Access.Flush.Settled.{
  fails, settled, settled_option, clean-settled, meta_path, lookup-flush_found,
}
use go_aptcacher.Access.Flush.Saves.{Sound, Saved, Saved-flush_found}

abbrev mem : Text → List Text → Bool
mem k [] = false
mem k (j ∷ js) = text_eq j k || mem k js

and_twice : (b c : Bool) → ((b && c) && c) ≡ (b && c)
and_twice b c = ground arith

settled-twice :
    (fault : Fault) (o : Option Record)
    → settled_option fault (settled_option fault o) ≡ settled_option fault o
settled-twice fault none = refl
settled-twice fault (some r) =
    ap (λ (b : Bool). some (record r { dirty = b })) (and_twice r.dirty (fails fault))

module _ (e : Env) where
  -- A record of the second map is one of the first, but for its dirty mark.
  abbrev Like : Map Record → Map Record → Type 0
  Like m m' =
      (k : Text) (q : Record)
      → lookup k m' ≡ some q
      → (r : Record) × (lookup k m ≡ some r) × ((b : Bool) × (record r { dirty = b } ≡ q))

  Sound-Like : (m m' : Map Record) → Like m m' → Sound e m → Sound e m'
  Sound-Like m m' like sound = record {
    has_url = λ k q l.
        let (r, h, (b, same)) = like k q l in
        subst (λ (x : Record). (u : Url) × (x.entry.url ≡ some u)) same (sound.has_url k r h);
    reads_back = λ k q l.
        let (r, h, (b, same)) = like k q l in
        let back = sound.reads_back k r h in
        subst (λ (x : Record). ReadsBack e x) same
          (record {
            not_empty = back.not_empty;
            reads_back = back.reads_back;
            url_utf8 = back.url_utf8;
            etag_utf8 = back.etag_utf8;
            sha256_utf8 = back.sha256_utf8;
          });
    apart = λ k j q q' l l' ne same.
        let (r, h, (b, of_r)) = like k q l in
        let (r', h', (b', of_r')) = like j q' l' in
        sound.apart k j r r' h h' ne
          (ap (meta_path e) of_r ∙ (same ∙ sym (ap (meta_path e) of_r')));
  }

  Like-flush_found :
      (fault : Fault) (k : Text) (o : Option Record) (c : AccessCache)
      → lookup k c.access_cache ≡ o
      → Like c.access_cache (flush_found e fault k o c).access_cache
  Like-flush_found fault k none c h j q l = unfold flush_found in (q, l, (q.dirty, refl))
  Like-flush_found fault k (some r) c h j q l = elim (Bool-cases (text_eq k j)) [
    | inl same ↦
        let found : some (settled fault r) ≡ some q =
          cc (lookup-flush_found e fault k j (some r) c h, same, l) in
        (r, cc ((text_eq_iff k j).0 same, h), (r.dirty && fails fault, cc (found)))
    | inr other ↦ (q, cc (lookup-flush_found e fault k j (some r) c h, other, l), (q.dirty, refl))
  ]

  lookup-flush_keys :
      (faults : Text → Fault) (ks : List Text) (j : Text) (c : AccessCache)
      → lookup j (flush_keys e faults ks c).access_cache ≡ (
          if mem j ks
          then settled_option (faults j) (lookup j c.access_cache)
          else lookup j c.access_cache)
  unfolding flush_keys
  lookup-flush_keys faults [] j c = refl
  lookup-flush_keys faults (k ∷ ks) j c =
      let ih =
        lookup-flush_keys faults ks j (flush_found e (faults k) k (lookup k c.access_cache) c) in
      let step = lookup-flush_found e (faults k) k j (lookup k c.access_cache) c refl in
      elim (Bool-cases (text_eq k j)) [
        | inl same ↦
            let names : k ≡ j = (text_eq_iff k j).0 same in
            let at_j : lookup j
                  (flush_found e (faults k) k (lookup k c.access_cache) c).access_cache
                ≡ settled_option (faults j) (lookup j c.access_cache) =
              cc (step, same, names) in
            ground (arith, ih, at_j, same, settled-twice (faults j) (lookup j c.access_cache))
        | inr other ↦ ground (arith, ih, step, other)
      ]

  mem-dirty_keys :
      (j : Text) (m : Map Record) (r : Record)
      → lookup j m ≡ some r
      → r.dirty ≡ true
      → mem j (dirty_keys m) ≡ true
  unfolding dirty_keys
  mem-dirty_keys j [] r h d = unfold lookup in absurd (cc (h))
  mem-dirty_keys j ((k, q) ∷ m) r h d = elim (Bool-cases (text_eq k j)) [
    | inl same ↦ ground (arith, same, lookup-cons j k q m, h, d)
    | inr other ↦
        let rest = mem-dirty_keys j m r (cc (lookup-cons j k q m, other, h)) d in
        ground (arith, other, rest)
  ]

  Saved-flush_keys :
      (faults : Text → Fault) (ks : List Text) (c : AccessCache)
      → Sound e c.access_cache
      → Saved e c
      → Saved e (flush_keys e faults ks c)
  unfolding flush_keys
  Saved-flush_keys faults [] c sound saved = saved
  Saved-flush_keys faults (k ∷ ks) c sound saved =
      let o = lookup k c.access_cache in
      Saved-flush_keys faults ks (flush_found e (faults k) k o c)
        (Sound-Like c.access_cache (flush_found e (faults k) k o c).access_cache
          (Like-flush_found (faults k) k o c refl) sound)
        (Saved-flush_found e (faults k) k o c refl sound saved)

  -- A flush keeps every record as it was, but for its dirty mark: it stays dirty only where its write
  -- failed, so that a later flush writes it.
  pub lookup-flush_access_cache :
      (faults : Text → Fault) (k : Text) (r : Record) (c : AccessCache)
      → lookup k c.access_cache ≡ some r
      → lookup k (flush_access_cache e faults c).access_cache
        ≡ some (record r { dirty = r.dirty && fails (faults k) })
  unfolding flush_access_cache
  lookup-flush_access_cache faults k r c h =
      let step = lookup-flush_keys faults (dirty_keys c.access_cache) k c in
      elim (Bool-cases r.dirty) [
        | inl d ↦ cc (step, mem-dirty_keys k c.access_cache r h d, h)
        | inr d ↦ ground (arith, step, h, clean-settled e (faults k) r d)
      ]

  -- Whatever writes of a flush fail, a record that is not marked dirty after it is loaded from the
  -- disk as it is in memory. It holds where that held before the flush, every record has a URL that
  -- can be read back, the texts of the URLs, the ETags and the SHA256 texts are UTF-8, without which
  -- JSON would change them, and no two records share a metadata file.
  pub load-flush_access_cache :
      (faults : Text → Fault) (k : Text) (r : Record) (c : AccessCache)
      → Sound e c.access_cache
      → Saved e c
      → lookup k (flush_access_cache e faults c).access_cache ≡ some r
      → r.dirty ≡ false
      → load_access_cache_record e r.protocol r.domain r.path (flush_access_cache e faults c).files
        ≡ some r
  unfolding flush_access_cache
  load-flush_access_cache faults k r c sound saved h d =
      Saved-flush_keys faults (dirty_keys c.access_cache) c sound saved k r h d
      ∙ ap (λ (b : Bool). some (record r { dirty = b })) (sym d)
