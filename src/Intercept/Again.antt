-- ===== src/Intercept/Again.antt =====
-- What later handshakes get from the storage of pkg/httpsintercept/httpsintercept.go.
use mathlib.Core.Option.{some-injective}
use go_aptcacher.Base.{
  ℕ, suc, ◌+◌, ◌<◌, ◌≡◌, refl, ap, ◌∙◌, inl, inr, true, false, List, [], ◌∷◌, Option, none, some,
  arith, leb, Bool-cases, Option-cases, All,
}
use go_aptcacher.Base.Text.{Text, text_eq, text_eq_iff}
use go_aptcacher.Base.Map.{lookup, lookup-insert, lookup-insert_self}
use go_aptcacher.Locks.{Time}
use go_aptcacher.Intercept.{
  Certificate, IssuedCertificate, CertificateStorage, or_zero, start_operation, end_operation,
  is_in_operation, store_generated, create_certificate, certificate_of, get_found, get_certificate,
  gc, gc_margin,
}

-- What happens to the storage: a whole GetCertificate, with the answer that the signing gives if it is
-- asked, or a GC.
pub data Event : Type 0 where
  gets : Text → Option Certificate → Event
  collects : Time → Event

-- A call with no one else at work needs no wait.
abbrev alone : CertificateStorage → CertificateStorage
alone s = s

abbrev pub storage_after :
    CertificateStorage → Option (Option Certificate × CertificateStorage) → CertificateStorage
storage_after s none = s
storage_after s (some r) = r.1

unfoldable pub run_event : Event → CertificateStorage → CertificateStorage
run_event (gets domain generated) s = storage_after s (get_certificate 1 alone domain generated s)
run_event (collects now) s = gc now s

unfoldable pub run_events : List Event → CertificateStorage → CertificateStorage
unfolding run_event
run_events [] s = s
run_events (e ∷ es) s = run_events es (run_event e s)

-- The entry that a first call leaves.
abbrev pub entry_of : Option Certificate → IssuedCertificate
entry_of none = record { certificate = none; expires = 0; operation_in_progress = false }
entry_of (some c) = record {
  certificate = some c;
  expires = c.not_after;
  operation_in_progress = false;
}

-- A GC comes more than two minutes before the end.
abbrev pub Spares : Time → Event → Type 0
Spares expires (gets domain generated) = Unit
Spares expires (collects now) = now + gc_margin < expires

lookup-gc :
    (now : Time) (domain : Text) (s : CertificateStorage) (v : IssuedCertificate)
    → lookup domain s ≡ some v
    → now + gc_margin < v.expires
    → lookup domain (gc now s) ≡ some v
unfolding lookup gc
lookup-gc now domain [] v h k = absurd (cc h)
lookup-gc now domain ((d, w) ∷ s) v h k = elim (Bool-cases (text_eq d domain)) [
  | inl e ↦
      let same : w ≡ v = some-injective w v (rw e at h) in
      let late : leb w.expires (now + gc_margin) ≡ false =
        ground (arith, k, ap (λ z. z.expires) same) in
      rw (late, e) (ap some same)
  | inr e ↦
      let rest = lookup-gc now domain s v (rw e at h) k in
      elim (Bool-cases (leb w.expires (now + gc_margin))) [
        | inl l ↦ rw l rest
        | inr l ↦ rw (l, e) rest
      ]
]

abbrev started : IssuedCertificate
started = record { certificate = none; expires = 0; operation_in_progress = true }

lookup-start_operation :
    (domain : Text) (s : CertificateStorage)
    → lookup domain s ≡ none
    → lookup domain (start_operation domain s) ≡ some started
unfolding start_operation
lookup-start_operation domain s h =
    lookup-insert_self domain (record (or_zero (lookup domain s)) { operation_in_progress = true })
      s
    ∙ rw h refl

lookup-store_generated :
    (domain : Text) (generated : Option Certificate) (s : CertificateStorage)
    → lookup domain s ≡ some started
    → lookup domain (store_generated domain generated s).1 ≡ some (entry_of generated)
unfolding store_generated end_operation
lookup-store_generated domain none s h =
    lookup-insert_self domain (record (or_zero (lookup domain s)) { operation_in_progress = false })
      s
    ∙ rw h refl
lookup-store_generated domain (some c) s h = lookup-insert_self domain (entry_of (some c)) s

start_operation-other :
    (other domain : Text) (s : CertificateStorage)
    → text_eq other domain ≡ false
    → lookup domain (start_operation other s) ≡ lookup domain s
unfolding start_operation
start_operation-other other domain s e = rw lookup-insert (rw e refl)

store_generated-other :
    (other domain : Text) (generated : Option Certificate) (s : CertificateStorage)
    → text_eq other domain ≡ false
    → lookup domain (store_generated other generated s).1 ≡ lookup domain s
unfolding store_generated end_operation
store_generated-other other domain none s e = rw lookup-insert (rw e refl)
store_generated-other other domain (some c) s e = rw lookup-insert (rw e refl)

not_in_operation :
    (domain : Text) (s : CertificateStorage)
    → lookup domain s ≡ none
    → is_in_operation domain s ≡ false
unfolding is_in_operation
not_in_operation domain s h = ap (λ o. (or_zero o).operation_in_progress) h

certificate_of-entry_of : (g : Option Certificate) → (entry_of g).certificate ≡ g
certificate_of-entry_of none = refl
certificate_of-entry_of (some c) = refl

-- The storage that a first call for a domain leaves.
abbrev stored : Text → Option Certificate → CertificateStorage → CertificateStorage
stored domain generated s = (store_generated domain generated (start_operation domain s)).1

lookup-stored :
    (domain : Text) (generated : Option Certificate) (s : CertificateStorage)
    → lookup domain s ≡ none
    → lookup domain (stored domain generated s) ≡ some (entry_of generated)
lookup-stored domain generated s h =
    lookup-store_generated domain generated (start_operation domain s)
      (lookup-start_operation domain s h)

get_certificate-missing :
    (n : ℕ) (others : CertificateStorage → CertificateStorage) (domain : Text)
    (generated : Option Certificate) (s : CertificateStorage)
    → lookup domain s ≡ none
    → get_certificate (suc n) others domain generated s
      ≡ some (generated, stored domain generated s)
unfolding get_certificate get_found create_certificate
get_certificate-missing n others domain generated s h = rw h (
    rw (not_in_operation domain s h) (
      ap (λ x. some (certificate_of x, stored domain generated s))
        (lookup-stored domain generated s h)
      ∙ ap (λ x. some (x, stored domain generated s)) (certificate_of-entry_of generated)))

get_certificate-found :
    (n : ℕ) (others : CertificateStorage → CertificateStorage) (domain : Text)
    (generated : Option Certificate) (s : CertificateStorage) (v : IssuedCertificate)
    → lookup domain s ≡ some v
    → get_certificate n others domain generated s ≡ some (v.certificate, s)
unfolding get_certificate get_found
get_certificate-found n others domain generated s v h = rw h refl

missing_ne :
    (other domain : Text) (s : CertificateStorage) (v : IssuedCertificate)
    → lookup other s ≡ none
    → lookup domain s ≡ some v
    → text_eq other domain ≡ false
missing_ne other domain s v h k = elim (Bool-cases (text_eq other domain)) [
  | inl e ↦ absurd (cc (h, k, ap (λ d. lookup d s) ((text_eq_iff other domain).0 e)))
  | inr e ↦ e
]

lookup-run_event :
    (domain : Text) (e : Event) (s : CertificateStorage) (v : IssuedCertificate)
    → Spares v.expires e
    → lookup domain s ≡ some v
    → lookup domain (run_event e s) ≡ some v
unfolding run_event
lookup-run_event domain (collects now) s v k h = lookup-gc now domain s v h k
lookup-run_event domain (gets other generated) s v k h = elim (Option-cases (lookup other s)) [
  | inr w ↦ rw (get_certificate-found 1 alone other generated s w.0 w.1) h
  | inl m ↦
      let ne = missing_ne other domain s v m h in
      rw (get_certificate-missing 0 alone other generated s m) (
        store_generated-other other domain generated (start_operation other s) ne
        ∙ start_operation-other other domain s ne
        ∙ h)
]

lookup-run_events :
    (domain : Text) (es : List Event) (s : CertificateStorage) (v : IssuedCertificate)
    → All (Spares v.expires) es
    → lookup domain s ≡ some v
    → lookup domain (run_events es s) ≡ some v
unfolding run_events
lookup-run_events domain [] s v a h = h
lookup-run_events domain (e ∷ es) s v a h =
    lookup-run_events domain es (run_event e s) v a.1 (lookup-run_event domain e s v a.0 h)

-- The first GetCertificate for a domain ends without a wait and gives what the signing gives. Whatever
-- calls for this and other domains follow, and whatever GCs that come more than two minutes before the
-- end of the certificate, a later call gives the same: the same certificate, and after a signing that
-- failed again none, although the signing would succeed now, until a GC has come.
pub get_certificate_again :
    (domain : Text) (generated later : Option Certificate) (s : CertificateStorage)
    (es : List Event) (n : ℕ) (others : CertificateStorage → CertificateStorage)
    → lookup domain s ≡ none
    → All (Spares (entry_of generated).expires) es
    → (t : CertificateStorage) × (get_certificate (suc n) others domain generated s
        ≡ some (generated, t))
      × (get_certificate n others domain later (run_events es t)
          ≡ some (generated, run_events es t))
get_certificate_again domain generated later s es n others h a =
    let t = stored domain generated s in
    (
      t,
      get_certificate-missing n others domain generated s h,
      get_certificate-found n others domain later (run_events es t) (entry_of generated) (
            lookup-run_events domain es t (entry_of generated) a
              (lookup-stored domain generated s h))
          ∙ ap (λ x. some (x, run_events es t)) (certificate_of-entry_of generated),
    )
