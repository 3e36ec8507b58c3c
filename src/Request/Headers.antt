-- ===== src/Request/Headers.antt =====
-- Which headers pass between client and origin: copyResponseHeaders and newCacheMissUpstreamRequest of
-- pkg/fscache/request_get.go.
pub mod Values
use go_aptcacher.Base.{
  ◌≡◌, refl, sym, ap, ◌∙◌, Bool, true, false, List, [], ◌∷◌, ◌++◌, if◌then◌else◌, Bool-cases, inl,
  inr, ◌⊎◌,
}
use mathlib.Core.List.{Memᴰ}
use mathlib.Core.List.Memᴰ.{head, tail}
use go_aptcacher.Base.Text.{Text, codes, text_eq, text_eq_iff, text_eq_refl}
use go_aptcacher.Base.Map.{lookup, keys, Distinct}
use go_aptcacher.Refresh.{contains_text}
use go_aptcacher.Request.{
  Server, is_hop_by_hop, skip_request_header_for_cache_miss, copy_response_headers, upstream_header,
}
use go_aptcacher.Request.Messages.{Header, ClientRequest, canonical_header_key}
use go_aptcacher.Request.Headers.Values.{
  all_values, all_values-add_headers, all_values-header_set_ne,
}

contains_text-Mem : (ks : List Text) (k : Text) → contains_text ks k ≡ true → Memᴰ k ks
unfolding contains_text
contains_text-Mem [] k h = absurd (cc h)
contains_text-Mem (j ∷ ks) k h = elim (Bool-cases (text_eq j k)) [
  | inl e ↦ head (sym ((text_eq_iff j k).0 e))
  | inr e ↦ tail (contains_text-Mem ks k (rw e at h))
]

Mem-contains_text : (ks : List Text) (k : Text) → Memᴰ k ks → contains_text ks k ≡ true
unfolding contains_text
Mem-contains_text [] k m = elim m [ ]
Mem-contains_text (j ∷ ks) k (head e) = rw (e, text_eq_refl j) refl
Mem-contains_text (j ∷ ks) k (tail m) = elim (Bool-cases (text_eq j k)) [
  | inl e ↦ rw e refl
  | inr e ↦ rw e (Mem-contains_text ks k m)
]

-- The fields of RFC 9110, section 7.6.1, that end at a proxy, with the older ones.
abbrev pub connection_fields : List Text
connection_fields =
    codes "Connection"
    ∷ codes "Proxy-Connection"
    ∷ codes "Keep-Alive"
    ∷ codes "Proxy-Authenticate"
    ∷ codes "Proxy-Authorization"
    ∷ codes "Te"
    ∷ codes "Trailer"
    ∷ codes "Transfer-Encoding"
    ∷ codes "Upgrade"
    ∷ []

-- What a request on a miss must not send on: with these, the answer could be a 304 without a body.
abbrev pub withheld_fields : List Text
withheld_fields =
    codes "If-Modified-Since" ∷ codes "If-None-Match" ∷ codes "E-Tag" ∷ connection_fields

is_hop_by_hop-canonical :
    (k : Text) → canonical_header_key k ≡ k → is_hop_by_hop k ≡ contains_text connection_fields k
unfolding is_hop_by_hop
is_hop_by_hop-canonical k h = ap (contains_text connection_fields) h

contains_text-append :
    (js ks : List Text) (k : Text)
    → contains_text (js ++ ks) k ≡ (if contains_text js k then true else contains_text ks k)
unfolding contains_text
contains_text-append [] ks k = refl
contains_text-append (j ∷ js) ks k = elim (Bool-cases (text_eq j k)) [
  | inl e ↦ rw e refl
  | inr e ↦ rw e (contains_text-append js ks k)
]

skip-canonical :
    (k : Text)
    → canonical_header_key k ≡ k
    → skip_request_header_for_cache_miss k ≡ contains_text withheld_fields k
unfolding skip_request_header_for_cache_miss
skip-canonical k h =
    ap
      (λ (b : Bool).
        if contains_text (codes "If-Modified-Since" ∷ codes "If-None-Match" ∷ codes "E-Tag" ∷ []) k
        then true
        else b)
      (is_hop_by_hop-canonical k h)
    ∙ sym (
        contains_text-append
          (codes "If-Modified-Since" ∷ codes "If-None-Match" ∷ codes "E-Tag" ∷ []) connection_fields
          k)

-- A test for the fields of a list decides between two values.
decide_field :
    {A : Type 0} (ks : List Text) (k : Text) (b : Bool) (x y z : A)
    → b ≡ contains_text ks k
    → x ≡ (if b then y else z)
    → (Memᴰ k ks × (x ≡ y)) ⊎ ((¬ Memᴰ k ks) × (x ≡ z))
decide_field ks k true x y z h e = inl (contains_text-Mem ks k (sym h), e)
decide_field ks k false x y z h e = inr (λ m. absurd (cc (h, Mem-contains_text ks k m)), e)

-- An answer of the origin adds the values of each header field to what the client gets, in their order,
-- but for the fields of a connection; a request on a miss is sent on with all the values of each
-- field, in their order, but for the fields of a connection, If-Modified-Since, If-None-Match and
-- E-Tag (other conditional ones, such as If-Range, are sent on), and but for X-Forwarded-For and
-- X-Proxy-Server, which the proxy sets itself. The field has its canonical form, and a map names
-- each field once.
pub forwarded_headers :
    (s : Server) (r : ClientRequest) (dst src : Header) (k : Text)
    → Distinct (keys src)
    → Distinct (keys r.header)
    → canonical_header_key k ≡ k
    → text_eq (codes "X-Forwarded-For") k ≡ false
    → text_eq (codes "X-Proxy-Server") k ≡ false
    → ((Memᴰ k connection_fields
          × (all_values k (copy_response_headers dst src) ≡ all_values k dst))
        ⊎ ((¬ Memᴰ k connection_fields)
            × (all_values k (copy_response_headers dst src)
                ≡ all_values k dst ++ all_values k src)))
      × ((Memᴰ k withheld_fields × (all_values k (upstream_header s r) ≡ []))
          ⊎ ((¬ Memᴰ k withheld_fields)
              × (all_values k (upstream_header s r) ≡ all_values k r.header)))
unfolding copy_response_headers upstream_header
forwarded_headers s r dst src k d d' canonical forwarded proxy = (
  decide_field connection_fields k (is_hop_by_hop k) (all_values k (copy_response_headers dst src))
      (all_values k dst) (all_values k dst ++ all_values k src)
      (is_hop_by_hop-canonical k canonical) (all_values-add_headers is_hop_by_hop k src dst d),
  decide_field withheld_fields k (skip_request_header_for_cache_miss k)
      (all_values k (upstream_header s r)) [] (all_values k r.header) (skip-canonical k canonical)
      (all_values-header_set_ne k (codes "X-Proxy-Server") _ _ proxy
        ∙ (all_values-header_set_ne k (codes "X-Forwarded-For") _ _ forwarded
            ∙ (all_values-add_headers skip_request_header_for_cache_miss k r.header [] d'
                ∙ (unfold lookup in refl)))),
)
