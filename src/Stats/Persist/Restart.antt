-- ===== src/Stats/Persist/Restart.antt =====
-- flushStatsToDisk (pkg/fscache/stats.go) beside requests that are tracked at any time, and a
-- restart.
use go_aptcacher.Base.{
  ℕ, ◌+◌, ◌≤◌, ◌<◌, ◌≡◌, refl, sym, ◌∙◌, true, false, [], ◌∷◌, Option, none, some, arith, is_some,
  uint64_mod, inl, inr, Bool-cases,
}
use mathlib.Core.Path.{subst}
use go_aptcacher.Base.Text.{Text, text_eq}
use go_aptcacher.Base.Map.{Map, keys, insert}
use go_aptcacher.Stats.Day.{Date, is_date, format_day, parse_day, parse_day-format_day}
use go_aptcacher.Stats.Events.{Event, cached, tunnelled, track}
use go_aptcacher.Stats.Persist.Atomic.{AllDays, keep_days_all}
use go_aptcacher.Stats.Persist.{
  Disk, StatsFile, payload, StatsError, Fault, no_fault, keep_days, load_stats_from_disk,
  begin_flush, write_stats, end_flush,
}
use go_aptcacher.Stats.{StatsEntry, Stats, track_request, track_tunnel_request}

-- Where the goroutine of startStatsFlushLoop stands.
pub data Flusher : Type 0 where
  idle : Flusher
  writing : ℕ → Map StatsEntry → Flusher
  written : ℕ → Flusher

pub record System : Type 0 where
  pub stats : Stats
  pub disk : Disk
  pub flusher : Flusher

abbrev pub on_day : Event → Date
on_day (cached d hit n) = d
on_day (tunnelled d n) = d

-- The flusher goes on from the result of the write, or gives up.
abbrev pub go_on : ℕ → Option StatsError → Flusher
go_on r none = written r
go_on r (some e) = idle

-- One step of a goroutine. The clock gives dates with years of four digits, and fewer than 2^64
-- requests are tracked, so that the revision does not come round.
pub data Step : System → System → Type 0 where
  tracks :
      (s : System) (ev : Event)
      → is_date (on_day ev) ≡ true
      → s.stats.revision + 1 < uint64_mod
      → Step s (record s { stats = track ev s.stats })
  begins :
      (s : System) (r : ℕ) (daily : Map StatsEntry)
      → s.flusher ≡ idle
      → begin_flush s.stats ≡ some (r, daily)
      → Step s (record s { flusher = writing r daily })
  writes :
      (s : System) (r : ℕ) (daily : Map StatsEntry) (fault : Fault)
      → s.flusher ≡ writing r daily
      → Step s (record s {
        disk = (write_stats fault daily s.disk).1;
        flusher = go_on r (write_stats fault daily s.disk).0;
      })
  ends :
      (s : System) (r : ℕ)
      → s.flusher ≡ written r
      → Step s (record s { stats = end_flush r s.stats; flusher = idle })

pub data Reach (s : System) : System → Type 0 where
  here : Reach s s
  next : {t u : System} → Reach s t → Step t u → Reach s u

abbrev pub fresh : Stats
fresh = record { by_date = []; dirty = false; revision = 0 }

-- The process after NewFSCache over what is on the disk.
abbrev pub boot : Disk → System
boot d = record { stats = (load_stats_from_disk d.file fresh).1; disk = d; flusher = idle }

-- What a restart finds.
abbrev pub recovered : Disk → Map StatsEntry
recovered d = (load_stats_from_disk d.file fresh).1.by_date

abbrev FlusherOk : Flusher → Stats → Disk → Type 0
FlusherOk idle s d = Unit
FlusherOk (writing r daily) s d =
    (s.dirty ≡ true) × AllDays daily × (r ≤ s.revision) × (r ≡ s.revision → daily ≡ s.by_date)
FlusherOk (written r) s d =
    (s.dirty ≡ true) × (r ≤ s.revision) × (r ≡ s.revision → recovered d ≡ s.by_date)

record Recoverable (s : System) : Type 0 where
  days : AllDays s.stats.by_date
  clean : s.stats.dirty ≡ false → recovered s.disk ≡ s.stats.by_date
  flush : FlusherOk s.flusher s.stats s.disk

AllDays-insert :
    (k : Text) (e : StatsEntry) (m : Map StatsEntry)
    → is_some (parse_day k) ≡ true
    → AllDays m
    → AllDays (insert k e m)
unfolding insert keys
AllDays-insert k e [] h a = (h, tt)
AllDays-insert k e ((j, w) ∷ m) h a = elim (Bool-cases (text_eq j k)) [
  | inl eq ↦ rw eq (h, a.1)
  | inr ne ↦ rw ne (a.0, AllDays-insert k e m h a.1)
]

AllDays-keep_days : (m : Map StatsEntry) → AllDays (keep_days m)
unfolding keep_days keys
AllDays-keep_days [] = tt
AllDays-keep_days ((k, e) ∷ m) = elim (Bool-cases (is_some (parse_day k))) [
  | inl h ↦ rw h (h, AllDays-keep_days m)
  | inr h ↦ rw h (AllDays-keep_days m)
]

is_some-format_day : (d : Date) → is_date d ≡ true → is_some (parse_day (format_day d)) ≡ true
is_some-format_day d h = rw (parse_day-format_day d h)

AllDays-track :
    (ev : Event) (s : Stats)
    → is_date (on_day ev) ≡ true
    → AllDays s.by_date
    → AllDays (track ev s).by_date
unfolding track track_request track_tunnel_request
AllDays-track (cached d hit n) s h a = AllDays-insert _ _ s.by_date (is_some-format_day d h) a
AllDays-track (tunnelled d n) s h a = AllDays-insert _ _ s.by_date (is_some-format_day d h) a

revision-track :
    (ev : Event) (s : Stats)
    → s.revision + 1 < uint64_mod
    → ((track ev s).revision ≡ s.revision + 1) × ((track ev s).dirty ≡ true)
unfolding track track_request track_tunnel_request
revision-track (cached d hit n) s h = (omega arith, refl)
revision-track (tunnelled d n) s h = (omega arith, refl)

FlusherOk-track :
    (f : Flusher) (ev : Event) (s : Stats) (d : Disk)
    → s.revision + 1 < uint64_mod
    → FlusherOk f s d
    → FlusherOk f (track ev s) d
FlusherOk-track idle ev s d h ok = tt
FlusherOk-track (writing r daily) ev s d h ok =
    let (grows, dirty) = revision-track ev s h in
    (dirty, ok.1, omega arith, λ e. absurd (omega arith))
FlusherOk-track (written r) ev s d h ok =
    let (grows, dirty) = revision-track ev s h in (dirty, omega arith, λ e. absurd (omega arith))

AllDays-recovered : (f : StatsFile) → AllDays (load_stats_from_disk f fresh).1.by_date
unfolding load_stats_from_disk keys
AllDays-recovered (payload version daily) = AllDays-keep_days daily
AllDays-recovered _ = tt

boot-Recoverable : (d : Disk) → Recoverable (boot d)
boot-Recoverable d = record { days = AllDays-recovered d.file; clean = λ _. refl; flush = tt }

begin_flush_lem :
    (s : Stats) {r : ℕ} {daily : Map StatsEntry}
    → begin_flush s ≡ some (r, daily)
    → (s.dirty ≡ true) × (r ≡ s.revision) × (daily ≡ s.by_date)
unfolding begin_flush
begin_flush_lem s h = ground arith

write_stats-recovered :
    (daily : Map StatsEntry) (d : Disk)
    → AllDays daily
    → recovered (write_stats no_fault daily d).1 ≡ daily
unfolding write_stats load_stats_from_disk
write_stats-recovered daily d a = keep_days_all daily a

writes-Recoverable :
    (fault : Fault) (s : System) (r : ℕ) (daily : Map StatsEntry)
    → AllDays s.stats.by_date
    → FlusherOk (writing r daily) s.stats s.disk
    → Recoverable (record s {
      disk = (write_stats fault daily s.disk).1;
      flusher = go_on r (write_stats fault daily s.disk).0;
    })
unfolding write_stats
writes-Recoverable no_fault s r daily a (dirty, all, le, same) = record {
  days = a;
  clean = λ e. cc;
  flush = (dirty, le, λ e. write_stats-recovered daily s.disk all ∙ same e);
}
writes-Recoverable _ s r daily a (dirty, all, le, same) = record {
  days = a;
  clean = λ e. cc;
  flush = tt;
}

by_date-end_flush : (r : ℕ) (s : Stats) → (end_flush r s).by_date ≡ s.by_date
unfolding end_flush
by_date-end_flush r s = ground arith

-- A flush cleans the statistics only if their revision is that of its copy.
end_flush_clean :
    (r : ℕ) (s : Stats) → s.dirty ≡ true → (end_flush r s).dirty ≡ false → r ≡ s.revision
unfolding end_flush
end_flush_clean r s h e = ground arith

ends-Recoverable :
    (s : System) (r : ℕ)
    → Recoverable s
    → FlusherOk (written r) s.stats s.disk
    → Recoverable (record s { stats = end_flush r s.stats; flusher = idle })
ends-Recoverable s r v (dirty, le, same) = record {
  days = subst AllDays (sym (by_date-end_flush r s.stats)) v.days;
  clean = λ e. same (end_flush_clean r s.stats dirty e) ∙ sym (by_date-end_flush r s.stats);
  flush = tt;
}

Step-Recoverable : {s t : System} → Step s t → Recoverable s → Recoverable t
Step-Recoverable (tracks s ev h fits) v = record {
  days = AllDays-track ev s.stats h v.days;
  clean = λ e. absurd (cc ((revision-track ev s.stats fits).1));
  flush = FlusherOk-track s.flusher ev s.stats s.disk fits v.flush;
}
Step-Recoverable (begins s r daily f e) v =
    let (dirty, same_revision, same_days) = begin_flush_lem s.stats e in
    record {
      days = v.days;
      clean = v.clean;
      flush = (dirty, subst AllDays (sym same_days) v.days, omega arith, λ _. same_days);
    }
Step-Recoverable (writes s r daily fault f) v =
    writes-Recoverable fault s r daily v.days (subst (λ x. FlusherOk x s.stats s.disk) f v.flush)
Step-Recoverable (ends s r f) v =
    ends-Recoverable s r v (subst (λ x. FlusherOk x s.stats s.disk) f v.flush)

Reach-Recoverable : {s t : System} → Recoverable s → Reach s t → Recoverable t
Reach-Recoverable v here = v
Reach-Recoverable v (next r step) = Step-Recoverable step (Reach-Recoverable v r)

-- From any disk, with any requests tracked at any moment of any flushes, failed ones included: when
-- the statistics are not marked as changed, a restart reads exactly the days in memory. The clock
-- gives dates, and fewer than 2^64 requests are tracked.
pub clean_restart :
    (d : Disk) {s : System}
    → Reach (boot d) s
    → s.stats.dirty ≡ false
    → (boot s.disk).stats.by_date ≡ s.stats.by_date
clean_restart d r clean = (Reach-Recoverable (boot-Recoverable d) r).clean clean
