-- ===== src/Connect/Tests.antt =====
-- Runs of connectResponseWriter (cmd/goaptcacher/proxy_connect.go).
use go_aptcacher.Base.{ℕ, suc, ◌≡◌, refl, List, [], ◌∷◌, ◌++◌, none, some, length}
use go_aptcacher.Base.Text.{Text, codes, text_eq}
use go_aptcacher.Base.Map.{Map, lookup}
use go_aptcacher.Connect.{header_text, header_get, status_no_body, effective_status}
use go_aptcacher.Connect.Decode.{decode}
use go_aptcacher.Connect.Response.{respond, respond-decodes, fresh, chunked_header}

abbrev status_text : ℕ → Text
status_text status = codes "OK"

abbrev plain : Map (List Text)
plain = (codes "Content-Type", codes "text/plain" ∷ []) ∷ []

abbrev writes : List Text
writes = codes "Hello, " ∷ [] ∷ codes "world" ∷ []

respond-decodes_example :
    (body : Text) × ((respond status_text writes (fresh plain 0)).0 ≡ none)
    × ((respond status_text writes (fresh plain 0)).1.sent
        ≡ header_text status_text (fresh (chunked_header plain) 0) ++ body)
    × (decode (suc (length writes)) body ≡ some (codes "Hello, world", []))
respond-decodes_example =
    respond-decodes status_text plain 0 (unfold header_get lookup text_eq in refl)
      (unfold header_get lookup text_eq in refl) (unfold status_no_body effective_status in refl)
      writes

abbrev sized : Map (List Text)
sized = (codes "Content-Length", codes "12" ∷ []) ∷ []
