-- ===== src/Connect/Plain.antt =====
-- The responses of connectResponseWriter (cmd/goaptcacher/proxy_connect.go) with a Content-Length.
use go_aptcacher.Base.{
  ℕ, ◌≡◌, refl, ap, ◌∙◌, Bool, false, List, [], ◌∷◌, ◌++◌, Option, none, if_false,
}
use mathlib.Core.List.{append_assoc}
use go_aptcacher.Base.Text.{Text, is_empty}
use go_aptcacher.Base.Map.{Map}
use go_aptcacher.Connect.{
  ConnError, ResponseWriter, send, then_send, write_header, write_body, write, close, close_body,
  header_get, header_text, set_encoding, drop_content_length, header_done, content_length,
}
use go_aptcacher.Connect.Response.{
  concat, respond, fresh, started, respond-opened, set_close_after-fresh, write_out,
}

module _ (status_text : ℕ → Text) where
  respond-plain :
      (header : Map (List Text)) (status : ℕ) (b : Bool) (ps : List Text) (sent : Text)
      → respond status_text ps (started status_text false header status b sent)
        ≡ (none, started status_text false header status b (sent ++ concat ps))
  unfolding write write_header close close_body then_send send write_body
  respond-plain header status b [] sent = refl
  respond-plain header status b (p ∷ ps) sent =
      respond-plain header status b ps (sent ++ p)
      ∙ ap (λ (s : Text). (none, started status_text false header status b s))
          (append_assoc sent p (concat ps))

  module _ (header : Map (List Text)) (status : ℕ)
      (has_length : is_empty (header_get content_length header) ≡ false) where
    set_encoding-fresh :
        (b : Bool)
        → set_encoding (record (fresh header status) { close_after = b })
          ≡ record (fresh header status) { close_after = b }
    unfolding set_encoding
    set_encoding-fresh b = if_false _ _ has_length

    write_header-fresh :
        (b : Bool) × (write_header status_text (fresh header status) ≡ (
          none,
          started status_text false header status b (header_text status_text (fresh header status)),
        ))
    unfolding write_header drop_content_length send header_done header_text
    write_header-fresh =
        let (b, closes) = set_close_after-fresh status_text header status in
        (
          b,
          ap (λ (x : ResponseWriter). write_out status_text (set_encoding x)) closes
              ∙ ap (λ (x : ResponseWriter). write_out status_text x) (set_encoding-fresh b),
        )

    -- A response whose handler has set Content-Length is the headers as they were set and then what
    -- the handler wrote, as it wrote it. No write fails.
    respond-content_length :
        (ps : List Text)
        → ((respond status_text ps (fresh header status)).0 ≡ none)
          × ((respond status_text ps (fresh header status)).1.sent
              ≡ header_text status_text (fresh header status) ++ concat ps)
    respond-content_length ps =
        let (b, out) = write_header-fresh in
        let head = header_text status_text (fresh header status) in
        let all : respond status_text ps (fresh header status)
            ≡ (none, started status_text false header status b (head ++ concat ps)) =
          respond-opened status_text ps (fresh header status) false header status b head out
          ∙ respond-plain header status b ps head in
        (
          ap (λ (x : Option ConnError × ResponseWriter). x.0) all,
          ap (λ (x : Option ConnError × ResponseWriter). x.1.sent) all,
        )
