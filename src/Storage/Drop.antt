-- ===== src/Storage/Drop.antt =====
-- The ranges that cacheDropWriter (pkg/fscache/cache_drop_writer.go) drops from the page cache.
use go_aptcacher.Base.{
  ℕ, ◌+◌, ◌-◌, ◌≤◌, ◌<◌, ◌≡◌, ◌⊎◌, inl, inr, refl, sym, ap, ◌∙◌, true, false, not, List, [], ◌∷◌,
  ◌++◌, arith, ltb, leb, if◌then◌else◌, Bool-cases, leb→le, ltb→lt,
}
use mathlib.Core.Path.{subst}
use go_aptcacher.Base.Int.{ℤ, pos_part, is_pos}
use go_aptcacher.Storage.{
  CacheDropWriter, new_cache_drop_writer, drop_pending, count_pending, write, drop_cache,
}

-- Ranges of at least `least` bytes each, one behind the other from `from` up to `to`.
abbrev pub Covers : ℕ → ℕ → List (ℕ × ℕ) → ℕ → Type 0
Covers least from [] to = from ≡ to
Covers least from ((offset, length) ∷ ranges) to =
    (offset ≡ from) × (least ≤ length) × Covers least (from + length) ranges to

pub Covers-concat :
    (least from : ℕ) (ranges : List (ℕ × ℕ)) (mid length : ℕ)
    → Covers least from ranges mid
    → least ≤ length
    → Covers least from (ranges ++ (mid, length) ∷ []) (mid + length)
Covers-concat least from [] mid length c h = (sym c, h, ap (λ (n : ℕ). n + length) c)
Covers-concat least from ((o, n) ∷ ranges) mid length c h =
    (c.0, c.1, Covers-concat least (from + n) ranges mid length c.2 h)

-- A writer that drops: all bytes from `start` on are dropped in order, but for the pending ones.
pub record IsDropping (start : ℕ) (w : CacheDropWriter) : Type 0 where
  pub on : w.enabled ≡ true
  pub low : start < w.threshold
  pub high : w.threshold ≤ w.offset
  pub rest : w.pending < w.chunk
  pub inside : w.pending ≤ w.offset
  pub covers : Covers w.chunk start w.dropped (w.offset - w.pending)

-- A writer that has not reached its threshold.
pub record IsQuiet (w : CacheDropWriter) : Type 0 where
  pub off : w.enabled ≡ false
  pub nothing : w.dropped ≡ []
  pub low : w.offset < w.threshold

abbrev pub IsSound : CacheDropWriter → Type 0
IsSound w = IsQuiet w ⊎ ((start : ℕ) × IsDropping start w)

abbrev add : ℕ → CacheDropWriter → CacheDropWriter
add n w = record w { pending = w.pending + n }

count_pending_lem :
    (n : ℕ) (w : CacheDropWriter)
    → count_pending n w ≡ (if leb w.chunk (w.pending + n) then drop_pending (add n w) else add n w)
unfolding count_pending
count_pending_lem n w = refl

drop_pending-IsDropping :
    (start : ℕ) (w : CacheDropWriter)
    → w.enabled ≡ true
    → start < w.threshold
    → w.threshold ≤ w.offset
    → w.pending ≤ w.offset
    → 0 < w.chunk
    → w.chunk ≤ w.pending
    → Covers w.chunk start w.dropped (w.offset - w.pending)
    → IsDropping start (drop_pending w)
unfolding drop_pending
drop_pending-IsDropping start w e low high fits some full c = record {
  on = e;
  low = low;
  high = high;
  rest = some;
  inside = omega arith;
  covers =
      subst (Covers w.chunk start (w.dropped ++ (w.offset - w.pending, w.pending) ∷ []))
        (omega arith)
        (Covers-concat w.chunk start w.dropped (w.offset - w.pending) w.pending c full);
}

count_pending-IsDropping :
    (start n : ℕ) (w : CacheDropWriter)
    → w.enabled ≡ true
    → start < w.threshold
    → w.threshold ≤ w.offset
    → w.pending + n ≤ w.offset
    → 0 < w.chunk
    → Covers w.chunk start w.dropped (w.offset - (w.pending + n))
    → IsDropping start (count_pending n w)
count_pending-IsDropping start n w e low high fits some c =
    elim (Bool-cases (leb w.chunk (w.pending + n))) [
      | inl full ↦
          rw (count_pending_lem n w, full)
            (drop_pending-IsDropping start (add n w) e low high fits some (leb→le _ _ full) c)
      | inr small ↦
          rw (count_pending_lem n w, small)
            (record {
              on = e;
              low = low;
              high = high;
              rest = ground arith;
              inside = fits;
              covers = c;
            })
    ]

-- The parameters stay as they were made.
abbrev SameSizes : CacheDropWriter → CacheDropWriter → Type 0
SameSizes v w = (v.chunk ≡ w.chunk) × (v.threshold ≡ w.threshold)

write-SameSizes : (n : ℤ) (w : CacheDropWriter) → SameSizes (write n w) w
unfolding write count_pending drop_pending
write-SameSizes n w = ground arith

abbrev advance : ℤ → CacheDropWriter → CacheDropWriter
advance n w = record w { offset = w.offset + pos_part n }

abbrev enable : CacheDropWriter → CacheDropWriter
enable w = record w { enabled = true; pending = 0 }

write_lem :
    (n : ℤ) (w : CacheDropWriter)
    → write n w ≡ (
        if not (is_pos n)
        then w
        else if w.enabled
        then count_pending (pos_part n) (advance n w)
        else if ltb (w.offset + pos_part n) w.threshold
        then advance n w
        else count_pending (pos_part n) (enable (advance n w)))
unfolding write
write_lem n w = refl

write-IsQuiet :
    (n : ℤ) (w : CacheDropWriter) → 0 < w.chunk → is_pos n ≡ true → IsQuiet w → IsSound (write n w)
write-IsQuiet n w some h q = elim (Bool-cases (ltb (w.offset + pos_part n) w.threshold)) [
  | inl below ↦
      let e : write n w ≡ advance n w = write_lem n w ∙ simp (h, q.off, below) in
      subst IsSound (sym e)
        (inl (record { off = q.off; nothing = q.nothing; low = ltb→lt _ _ below }))
  | inr above ↦
      let e : write n w ≡ count_pending (pos_part n) (enable (advance n w)) =
        write_lem n w ∙ simp (h, q.off, above) in
      subst IsSound (sym e) (
        inr (
          w.offset,
          count_pending-IsDropping w.offset (pos_part n) (enable (advance n w)) refl q.low
              (ground arith) (omega arith) some
              (subst (λ r. Covers w.chunk w.offset r (w.offset + pos_part n - (0 + pos_part n)))
                (sym q.nothing) (omega arith)),
        ))
]

write-IsSound : (n : ℤ) (w : CacheDropWriter) → 0 < w.chunk → IsSound w → IsSound (write n w)
write-IsSound n w some v = elim (Bool-cases (is_pos n)) [
  | inr h ↦ rw (write_lem n w, h) v
  | inl h ↦ go v h
]
  where
    go : IsSound w → is_pos n ≡ true → IsSound (write n w)
    go (inl q) h = write-IsQuiet n w some h q
    go (inr (start, d)) h =
        let e : write n w ≡ count_pending (pos_part n) (advance n w) =
          write_lem n w ∙ simp (h, d.on) in
        subst IsSound (sym e) (
          inr (
            start,
            count_pending-IsDropping start (pos_part n) (advance n w) d.on d.low
                (omega (arith, d.high)) (omega (arith, d.inside)) some
                (subst (Covers w.chunk start w.dropped) (omega (arith, d.inside)) d.covers),
          ))

unfoldable pub write_all : List ℤ → CacheDropWriter → CacheDropWriter
write_all [] w = w
write_all (n ∷ ns) w = write_all ns (write n w)

write_all_keeps :
    (ns : List ℤ) (w : CacheDropWriter)
    → 0 < w.chunk
    → IsSound w
    → IsSound (write_all ns w) × SameSizes (write_all ns w) w
unfolding write_all
write_all_keeps [] w some v = (v, (refl, refl))
write_all_keeps (n ∷ ns) w some v =
    let same = write-SameSizes n w in
    let (sound, sizes) =
      write_all_keeps ns (write n w) (rw same.0 some) (write-IsSound n w some v) in
    (sound, (sizes.0 ∙ same.0, sizes.1 ∙ same.1))

-- With a positive threshold and chunk, after any writes the writer has either not reached the
-- threshold and dropped nothing, or the dropped ranges, each of a chunk or more, follow one another
-- without gap or overlap from below the threshold up to the pending bytes, of which there is less
-- than a chunk.
pub write_all-IsSound :
    (threshold chunk : ℕ) (ns : List ℤ)
    → 0 < threshold
    → 0 < chunk
    → IsSound (write_all ns (new_cache_drop_writer threshold chunk))
write_all-IsSound threshold chunk ns h some =
    (write_all_keeps ns (new_cache_drop_writer threshold chunk) some
      (inl (record { off = refl; nothing = refl; low = h }))).0

Covers-one :
    (least from : ℕ) (ranges : List (ℕ × ℕ)) (mid length : ℕ)
    → Covers least from ranges mid
    → Covers 0 from (ranges ++ (mid, length) ∷ []) (mid + length)
Covers-one least from [] mid length c = (sym c, omega arith, ap (λ (n : ℕ). n + length) c)
Covers-one least from ((o, n) ∷ ranges) mid length c =
    (c.0, omega arith, Covers-one least (from + n) ranges mid length c.2)

Covers-weak :
    (least from : ℕ) (ranges : List (ℕ × ℕ)) (to : ℕ)
    → Covers least from ranges to
    → Covers 0 from ranges to
Covers-weak least from [] to c = c
Covers-weak least from ((o, n) ∷ ranges) to c =
    (c.0, omega arith, Covers-weak least (from + n) ranges to c.2)

-- DropCache on such a writer drops the pending bytes too, so that all bytes from the start to the
-- end of the file are dropped, and then asks once for the whole file; on a writer below its
-- threshold it does nothing.
drop_cache_lem :
    (w : CacheDropWriter)
    → IsSound w
    → (IsQuiet w × (drop_cache w ≡ w))
      ⊎ ((start : ℕ) × (ranges : List (ℕ × ℕ)) × (start < w.threshold)
          × ((drop_cache w).dropped ≡ ranges ++ (0, 0) ∷ [])
          × Covers 0 start ranges w.offset
          × ((drop_cache w).pending ≡ 0))
unfolding drop_cache drop_pending
drop_cache_lem w (inl q) = inl (q, ground (arith, q.off))
drop_cache_lem w (inr (start, d)) = elim (Bool-cases (ltb 0 w.pending)) [
  | inl e ↦ inr (
    start,
    w.dropped ++ (w.offset - w.pending, w.pending) ∷ [],
    d.low,
    ground (arith, d.on),
    subst (Covers 0 start (w.dropped ++ (w.offset - w.pending, w.pending) ∷ []))
        (omega (arith, d.inside))
        (Covers-one w.chunk start w.dropped (w.offset - w.pending) w.pending d.covers),
    ground (arith, d.on),
  )
  | inr e ↦ inr (
    start,
    w.dropped,
    d.low,
    ground (arith, d.on),
    subst (Covers 0 start w.dropped) (ground arith)
        (Covers-weak w.chunk start w.dropped (w.offset - w.pending) d.covers),
    ground (arith, d.on),
  )
]
