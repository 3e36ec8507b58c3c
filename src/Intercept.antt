-- ===== src/Intercept.antt =====
-- The certificates of intercepted connections: the storage of pkg/httpsintercept/httpsintercept.go. The
-- certificates themselves and their signing are those of crypto/x509.
pub mod San
pub mod Again
pub mod Der
mod Tests
use go_aptcacher.Base.{
  ℕ, zero, suc, ◌+◌, ◌*◌, Bool, true, false, List, [], ◌∷◌, Option, none, some, leb, if◌then◌else◌,
}
use go_aptcacher.Base.Text.{Text, is_empty, to_lower}
use go_aptcacher.Base.Map.{Map, lookup, insert}
use go_aptcacher.Locks.{Time}

-- tls.Certificate, of which the storage reads the end of its validity.
pub record Certificate : Type 0 where
  pub raw : Text
  pub not_after : Time

-- IssuedCertificate
pub record IssuedCertificate : Type 0 where
  pub certificate : Option Certificate
  pub expires : Time
  pub operation_in_progress : Bool

-- certificateStorage
abbrev pub CertificateStorage : Type 0
CertificateStorage = Map IssuedCertificate

-- The entry of a domain; one that is missing reads as the zero value.
abbrev pub or_zero : Option IssuedCertificate → IssuedCertificate
or_zero none = record { certificate = none; expires = 0; operation_in_progress = false }
or_zero (some c) = c

-- StartOperation
unfoldable pub start_operation : Text → CertificateStorage → CertificateStorage
start_operation domain s =
    insert domain (record (or_zero (lookup domain s)) { operation_in_progress = true }) s

-- EndOperation
unfoldable pub end_operation : Text → CertificateStorage → CertificateStorage
end_operation domain s =
    insert domain (record (or_zero (lookup domain s)) { operation_in_progress = false }) s

-- IsInOperation
unfoldable pub is_in_operation : Text → CertificateStorage → Bool
is_in_operation domain s = (or_zero (lookup domain s)).operation_in_progress

-- What CreateCertificate does with the answer of generateProxyCertificate, and whether it succeeds.
unfoldable pub store_generated :
    Text → Option Certificate → CertificateStorage → Bool × CertificateStorage
unfolding end_operation
store_generated domain none s = (false, end_operation domain s)
store_generated domain (some c) s = (
  true,
  insert domain
      (record { certificate = some c; expires = c.not_after; operation_in_progress = false }) s,
)

-- CreateCertificate, with what the others do in each second that it waits, and at most so many calls.
unfoldable pub create_certificate :
    ℕ
    → (CertificateStorage → CertificateStorage)
    → Text
    → Option Certificate
    → CertificateStorage
    → Option (Bool × CertificateStorage)
unfolding store_generated start_operation is_in_operation
create_certificate zero others domain generated s = none
create_certificate (suc n) others domain generated s =
    let rest = create_certificate n others domain generated (others s) in
    if is_in_operation domain s
    then rest
    else some (store_generated domain generated (start_operation domain s))

abbrev pub certificate_of : Option IssuedCertificate → Option Certificate
certificate_of none = none
certificate_of (some v) = v.certificate

abbrev pub get_created :
    Text → Option (Bool × CertificateStorage) → Option (Option Certificate × CertificateStorage)
get_created domain none = none
get_created domain (some r) = some (certificate_of (lookup domain r.1), r.1)

unfoldable pub get_found :
    ℕ
    → (CertificateStorage → CertificateStorage)
    → Text
    → Option Certificate
    → CertificateStorage
    → Option IssuedCertificate
    → Option (Option Certificate × CertificateStorage)
unfolding create_certificate
get_found n others domain generated s (some v) = some (v.certificate, s)
get_found n others domain generated s none =
    get_created domain (create_certificate n others domain generated s)

-- GetCertificate: the certificate or nil, and the storage.
unfoldable pub get_certificate :
    ℕ
    → (CertificateStorage → CertificateStorage)
    → Text
    → Option Certificate
    → CertificateStorage
    → Option (Option Certificate × CertificateStorage)
unfolding get_found
get_certificate n others domain generated s =
    get_found n others domain generated s (lookup domain s)

-- ReturnCert: the name that the client gives, or else the address of the connection, or else the
-- configured domain.
unfoldable pub requested_domain : Text → Text → Text → Text
requested_domain server_name local_address domain =
    let name = to_lower server_name in
    if is_empty name then if is_empty local_address then domain else local_address else name

-- Two minutes, in nanoseconds.
abbrev pub gc_margin : ℕ
gc_margin = 2 * 60 * 1000000000

-- GC
unfoldable pub gc : Time → CertificateStorage → CertificateStorage
gc now [] = []
gc now ((domain, c) ∷ s) =
    let rest = gc now s in if leb c.expires (now + gc_margin) then rest else (domain, c) ∷ rest
