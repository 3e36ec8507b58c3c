-- ===== src/Access/Disk/RoundTrip.antt =====
-- Writing a metadata record and loading it (pkg/fscache/access_cache.go).
use go_aptcacher.Base.{◌≡◌, ◌≢◌, refl, ap, true, false, [], ◌∷◌, ◌++◌, some}
use go_aptcacher.Base.Text.{Text}
use go_aptcacher.Base.Map.{Map, delete, lookup-insert_self}
use go_aptcacher.LocalPath.{Url}
use go_aptcacher.Access.{
  Record, MetaFile, payload, Env, normalize_access_entry, access_cache_meta_path, get_url,
}
use go_aptcacher.Access.Disk.Json.{json_text, json_text-utf8, is_utf8}
use go_aptcacher.Access.Disk.{
  no_fault, url_string, to_payload, write_file, write_access_cache_record, payload_url, url_or,
  from_payload, decode, load_access_cache_record, text_or, tmp_suffix,
}

-- The record without its dirty mark and with a URL: what is kept of it on the disk.
abbrev pub persistent : Record → Record
persistent r = record r {
  entry = normalize_access_entry r.protocol r.domain r.path r.entry;
  dirty = false;
}

text_or-nonempty : (s t : Text) → s ≢ [] → text_or s t ≡ s
unfolding text_or
text_or-nonempty [] t ne = absurd (ne refl)
text_or-nonempty (c ∷ s) t ne = refl

module _ (e : Env) where
  -- The text of the record's URL is not empty and parses as that URL again, and the texts that are
  -- written are UTF-8.
  pub record ReadsBack (r : Record) : Type 0 where
    pub not_empty : (u : Url) → r.entry.url ≡ some u → e.urls.string u ≢ []
    pub reads_back : (u : Url) → r.entry.url ≡ some u → e.urls.parse (e.urls.string u) ≡ some u
    pub url_utf8 : (u : Url) → r.entry.url ≡ some u → is_utf8 (e.urls.string u) ≡ true
    pub etag_utf8 : is_utf8 r.entry.etag ≡ true
    pub sha256_utf8 : is_utf8 r.entry.sha256 ≡ true

  payload_url-nonempty : (s : Text) → s ≢ [] → payload_url e s ≡ e.urls.parse s
  unfolding payload_url
  payload_url-nonempty [] ne = absurd (ne refl)
  payload_url-nonempty (c ∷ s) ne = refl

  url_string-some :
      (r : Record) (u : Url)
      → r.entry.url ≡ some u
      → e.urls.string u ≢ []
      → url_string e r ≡ e.urls.string u
  unfolding url_string
  url_string-some r u h ne =
      rw h (text_or-nonempty (e.urls.string u) (get_url e r.protocol r.domain r.path) ne)

  payload_url-url_string :
      (r : Record) (u : Url)
      → r.entry.url ≡ some u
      → ReadsBack r
      → payload_url e (json_text (url_string e r)) ≡ r.entry.url
  payload_url-url_string r u h back = cc (
    url_string-some r u h (back.not_empty u h),
    json_text-utf8 (e.urls.string u) (back.url_utf8 u h),
    payload_url-nonempty (e.urls.string u) (back.not_empty u h),
    back.reads_back u h,
    h,
  )

  from_payload-to_payload :
      (r : Record) (u : Url)
      → r.entry.url ≡ some u
      → ReadsBack r
      → from_payload e r.protocol r.domain r.path (to_payload e r) ≡ record r { dirty = false }
  unfolding from_payload to_payload url_or
  from_payload-to_payload r u h back =
      rw
        (
          payload_url-url_string r u h back,
          json_text-utf8 r.entry.etag back.etag_utf8,
          json_text-utf8 r.entry.sha256 back.sha256_utf8,
        )
        (rw h refl)

  -- What is written without a fault is read back at its key, but for the dirty mark. It holds of a
  -- record that has a URL whose text is not empty and parses as that URL, and whose URL text, ETag and
  -- SHA256 text are UTF-8: JSON replaces each other byte by U+FFFD.
  pub load-write_access_cache_record :
      (r : Record) (u : Url) (files : Map MetaFile)
      → r.entry.url ≡ some u
      → ReadsBack r
      → load_access_cache_record e r.protocol r.domain r.path
          (write_access_cache_record e no_fault r files).1
        ≡ some (record r { dirty = false })
  unfolding load_access_cache_record write_access_cache_record decode write_file
  load-write_access_cache_record r u files h back =
      rw
        (lookup-insert_self (access_cache_meta_path e r.protocol r.domain r.path)
          (payload (to_payload e r))
          (delete (access_cache_meta_path e r.protocol r.domain r.path ++ tmp_suffix) files))
        (ap some (from_payload-to_payload r u h back))
