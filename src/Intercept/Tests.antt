-- ===== src/Intercept/Tests.antt =====
-- Runs of the storage of certificates (pkg/httpsintercept/httpsintercept.go).
use go_aptcacher.Base.{◌≡◌, refl, List, [], ◌∷◌, ◌++◌, none, some, arith}
use go_aptcacher.Base.Text.{Text, codes, text_eq, cut_prefix, trim_left, trim_right}
use go_aptcacher.Base.Map.{lookup, insert}
use go_aptcacher.Intercept.{Certificate, CertificateStorage, start_operation, get_certificate}
use go_aptcacher.Intercept.Der.{der_tlv, read_tlv, read_tlv-der_tlv}
use go_aptcacher.Intercept.San.{template_names}
use go_aptcacher.Intercept.Again.{Event, gets, collects, run_events, get_certificate_again}

abbrev host : Text
host = codes "a.org"

abbrev certificate : Certificate
certificate = record { raw = codes "c"; not_after = 900000000000 }

abbrev unused : CertificateStorage → CertificateStorage
unused s = []

abbrev later_events : List Event
later_events = gets (codes "b.org") none ∷ collects 5 ∷ gets host none ∷ []

get_certificate_again_example :
    (t : CertificateStorage) × (get_certificate 1 unused host (some certificate) []
      ≡ some (some certificate, t))
    × (get_certificate 0 unused host none (run_events later_events t)
        ≡ some (some certificate, run_events later_events t))
get_certificate_again_example =
    get_certificate_again host (some certificate) none [] later_events 0 unused
      (unfold lookup in refl) (tt, (omega arith, (tt, tt)))

-- A handshake during the first one for a domain gets no certificate.
during_operation :
    get_certificate 1 unused host (some certificate) (start_operation host [])
    ≡ some (none, start_operation host [])
unfolding get_certificate start_operation lookup insert text_eq
during_operation = refl

-- A name twice, once with a port.
names_once :
    template_names (λ h. none) (λ h. some host) host (codes "a.org:443")
    ≡ record { dns_names = host ∷ []; ip_addresses = [] }
unfolding template_names cut_prefix text_eq trim_left trim_right
names_once = refl

abbrev long_uri : Text
long_uri =
    codes
      "http://aptcache.example.org/a/very/long/path/that/needs/the/long/form/of/a/length/in/the/encoding/of/its/location/_goaptcacher/revocation.crl"

read_tlv-der_tlv_example : read_tlv (der_tlv 134 long_uri ++ 5 ∷ []) ≡ some (134, long_uri, 5 ∷ [])
read_tlv-der_tlv_example = read_tlv-der_tlv 134 long_uri (5 ∷ []) (omega arith)
