-- ===== src/Connect/Response.antt =====
-- The responses that connectResponseWriter (cmd/goaptcacher/proxy_connect.go) sends.
use go_aptcacher.Base.{
  ℕ, zero, suc, ◌≤◌, ◌≡◌, refl, ap, ◌∙◌, Bool, true, false, not, ◌&&◌, List, [], ◌∷◌, ◌++◌, Option,
  none, some, arith, length, Bool-cases, inl, inr, ◌==◌, if_true, if_false,
}
use mathlib.Core.List.{append_assoc, append-nil}
use go_aptcacher.Base.Text.{Text, codes, is_empty, text_eq, to_lower, trim_space}
use go_aptcacher.Base.Map.{Map, delete}
use go_aptcacher.Connect.{
  ConnError, ResponseWriter, crlf, hex, send, then_send, write_header, write_body, write, close,
  close_body, status_no_body, effective_status, header_get, header_set, header_text,
  set_close_after, set_encoding, drop_content_length, header_done, new_connect_response_writer,
  content_length, transfer_encoding,
}
use go_aptcacher.Connect.Decode.{chunk, decode, decode-chunk, decode-last, prepend}

-- What the handler wrote.
abbrev pub concat : List Text → Text
concat [] = []
concat (p ∷ ps) = p ++ concat ps

-- The chunks of the writes that are not empty.
abbrev chunks : List Text → Text
chunks [] = []
chunks ([] ∷ ps) = chunks ps
chunks ((c ∷ p) ∷ ps) = chunk (c ∷ p) ++ chunks ps

decode-chunks :
    (fuel : ℕ) (ps : List Text) (rest : Text)
    → length ps ≤ fuel
    → decode (suc fuel) (chunks ps ++ (codes "0\r\n\r\n" ++ rest)) ≡ some (concat ps, rest)
decode-chunks fuel [] rest h = decode-last fuel rest
decode-chunks fuel ([] ∷ ps) rest h = decode-chunks fuel ps rest (omega arith)
decode-chunks zero ((c ∷ p) ∷ ps) rest h = absurd (omega arith)
decode-chunks (suc fuel) ((c ∷ p) ∷ ps) rest h =
    ap (decode (suc (suc fuel)))
      (append_assoc (chunk (c ∷ p)) (chunks ps) (codes "0\r\n\r\n" ++ rest))
    ∙ decode-chunk (suc fuel) (c ∷ p) (chunks ps ++ (codes "0\r\n\r\n" ++ rest)) (λ e. cc (e))
    ∙ rw (decode-chunks fuel ps rest (omega arith)) (unfold prepend in refl)

-- The writer of a handler that has set these headers and this status, and has written nothing yet.
abbrev pub fresh : Map (List Text) → ℕ → ResponseWriter
fresh header status = record new_connect_response_writer { header = header; status = status }

-- The headers that go out with a body in chunks.
abbrev pub chunked_header : Map (List Text) → Map (List Text)
chunked_header header =
    delete content_length (header_set transfer_encoding (codes "chunked") header)

sent-chunk :
    (sent size p : Text)
    → ((sent ++ (size ++ crlf)) ++ p) ++ crlf ≡ sent ++ (((size ++ crlf) ++ p) ++ crlf)
sent-chunk sent size p = simp (append_assoc)

module _ (status_text : ℕ → Text) where
  -- The handler's writes, one after the other, and Close.
  abbrev pub respond : List Text → ResponseWriter → Option ConnError × ResponseWriter
  respond [] w = close status_text w
  respond (p ∷ ps) w = respond ps (write status_text p w).1

  -- A writer whose header is out, and which sends chunks or not.
  abbrev pub started : Bool → Map (List Text) → ℕ → Bool → Text → ResponseWriter
  started chunked header status close_after sent = record {
    sent = sent;
    failed = false;
    header = header;
    wrote_header = true;
    status = status;
    chunked = chunked;
    close_after = close_after;
  }

  module _ (header : Map (List Text)) (status : ℕ) (close_after : Bool) where
    write-cons :
        (c : ℕ) (p sent : Text)
        → write status_text (c ∷ p) (started true header status close_after sent)
          ≡ ((length (c ∷ p), none), started true header status close_after (sent ++ chunk (c ∷ p)))
    unfolding write write_header write_body then_send send
    write-cons c p sent =
        if_false {b = length (c ∷ p) == 0} _ _ (ground arith)
        ∙ ap (λ (s : Text). ((length (c ∷ p), none), started true header status close_after s))
            (sent-chunk sent (hex (suc (length (c ∷ p))) (length (c ∷ p))) (c ∷ p))

    respond-chunks :
        (ps : List Text) (sent : Text)
        → respond ps (started true header status close_after sent) ≡ (
          none,
          started true header status close_after (sent ++ (chunks ps ++ codes "0\r\n\r\n")),
        )
    unfolding write write_header close close_body then_send send write_body
    respond-chunks [] sent =
        ap (λ (s : Text). (none, started true header status close_after s))
          (append-nil (sent ++ codes "0\r\n\r\n"))
    respond-chunks ([] ∷ ps) sent = respond-chunks ps sent
    respond-chunks ((c ∷ p) ∷ ps) sent =
        ap (λ (x : (ℕ × Option ConnError) × ResponseWriter). respond ps x.1) (write-cons c p sent)
        ∙ respond-chunks ps (sent ++ chunk (c ∷ p))
        ∙ ap (λ (s : Text). (none, started true header status close_after s)) (simp (append_assoc))

  pub set_close_after-fresh :
      (header : Map (List Text)) (status : ℕ)
      → (b : Bool) × (set_close_after (fresh header status)
          ≡ record (fresh header status) { close_after = b })
  unfolding set_close_after
  set_close_after-fresh header status =
      elim (Bool-cases (
        not (is_empty (header_get (codes "Connection") header))
        && text_eq (to_lower (trim_space (header_get (codes "Connection") header)))
            (codes "close"))) [ inl h ↦ (true, if_true _ _ h) | inr h ↦ (false, if_false _ _ h) ]

  abbrev pub write_out : ResponseWriter → Option ConnError × ResponseWriter
  write_out w =
      header_done (send (header_text status_text (drop_content_length w)) (drop_content_length w))

  -- Once the header is out, the first write, or Close, goes on as if it had been out before.
  pub respond-opened :
      (ps : List Text) (w : ResponseWriter) (k : Bool) (header : Map (List Text)) (status : ℕ)
      (b : Bool) (sent : Text)
      → write_header status_text w ≡ (none, started k header status b sent)
      → respond ps w ≡ respond ps (started k header status b sent)
  unfolding write close write_header
  respond-opened [] w k header status b sent out =
      ap (λ (x : Option ConnError × ResponseWriter). then_send [] (close_body status_text x)) out
  respond-opened (p ∷ ps) w k header status b sent out =
      ap (λ (x : Option ConnError × ResponseWriter). respond ps (write_body status_text p x).1) out

  module _ (header : Map (List Text)) (status : ℕ)
      (no_length : is_empty (header_get content_length header) ≡ true)
      (no_encoding : is_empty (header_get transfer_encoding header) ≡ true)
      (has_body : status_no_body (effective_status (fresh header status)) ≡ false) where
    set_encoding-fresh :
        (b : Bool)
        → set_encoding (record (fresh header status) { close_after = b })
          ≡ record (fresh header status) {
            close_after = b;
            chunked = true;
            header = header_set transfer_encoding (codes "chunked") header;
          }
    unfolding set_encoding
    set_encoding-fresh b =
        if_true _ _ no_length
        ∙ (if_true _ _ no_encoding ∙ if_false _ _ (unfold effective_status in has_body))

    write_header-fresh :
        (b : Bool) × (write_header status_text (fresh header status) ≡ (
          none,
          started true
              (chunked_header header)
              status
              b
              (header_text status_text (fresh (chunked_header header) status)),
        ))
    unfolding write_header drop_content_length send header_done header_text
    write_header-fresh =
        let (b, closes) = set_close_after-fresh header status in
        (
          b,
          ap (λ (x : ResponseWriter). write_out (set_encoding x)) closes
              ∙ ap (λ (x : ResponseWriter). write_out x) (set_encoding-fresh b),
        )

    -- What is answered with a status that has a body, and headers without Content-Length and
    -- Transfer-Encoding, is the header, which names the chunked coding, and then bytes that decode to
    -- what the handler wrote, whatever the sizes of its writes, and nothing more. No write fails.
    pub respond-decodes :
        (ps : List Text)
        → (body : Text) × ((respond ps (fresh header status)).0 ≡ none)
          × ((respond ps (fresh header status)).1.sent
              ≡ header_text status_text (fresh (chunked_header header) status) ++ body)
          × (decode (suc (length ps)) body ≡ some (concat ps, []))
    respond-decodes ps =
        let (b, out) = write_header-fresh in
        let head = header_text status_text (fresh (chunked_header header) status) in
        let all : respond ps (fresh header status) ≡ (
          none,
          started true (chunked_header header) status b (head ++ (chunks ps ++ codes "0\r\n\r\n")),
        ) =
          respond-opened ps (fresh header status) true (chunked_header header) status b head out
          ∙ respond-chunks (chunked_header header) status b ps head in
        (
          chunks ps ++ codes "0\r\n\r\n",
          ap (λ (x : Option ConnError × ResponseWriter). x.0) all,
          ap (λ (x : Option ConnError × ResponseWriter). x.1.sent) all,
          decode-chunks (length ps) ps [] (omega arith),
        )
