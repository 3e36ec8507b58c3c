-- ===== src/Request/Outcome/Steps.antt =====
-- The steps of a download for a client (streamCacheMissResponse of pkg/fscache/request_get.go): what
-- each leaves in the answer.
use go_aptcacher.Base.{
  ℕ, ◌≤◌, ◌≡◌, refl, ap, ◌∙◌, Bool, true, false, ◌&&◌, ◌++◌, Option, none, some, arith,
  if◌then◌else◌, Bool-cases, inl, inr, ◌⊎◌, is_some, take,
}
use go_aptcacher.Base.Int.{is_pos}
use go_aptcacher.Base.Text.{Text, codes}
use go_aptcacher.Storage.{ensure_disk_space}
use go_aptcacher.Connect.{header_get}
use go_aptcacher.Request.{Upstream, Server}
use go_aptcacher.Request.Messages.{Header, Client, send_status, send_body, http_error}
use go_aptcacher.Request.Fetch.{
  set_last_modified, set_conditional_cache_miss_headers, prepare_cache_miss_target,
  create_cache_miss_temp_file, copied, stream_response_to_client_and_cache,
  finalize_cache_miss_file,
}

-- The client was sent an error.
abbrev pub Refused : Client → Type 0
Refused c = (status : ℕ) × (header : Header) × (c.sent ≡ some (status, header)) × (400 ≤ status)

-- The client was sent a status.
abbrev pub SentStatus : ℕ → Client → Type 0
SentStatus status c = (header : Header) × (c.sent ≡ some (status, header))

pub http_error-Refused :
    (message : Text) (status : ℕ) (c : Client)
    → c.sent ≡ none
    → 400 ≤ status
    → Refused (http_error message status c)
unfolding http_error send_body send_status
http_error-Refused message status c h le = rw h (status, _, refl, le)

send_status-sent :
    (status : ℕ) (c : Client) → c.sent ≡ none → SentStatus status (send_status status c)
unfolding send_status
send_status-sent status c h = rw h (_, refl)

send_status-body : (status : ℕ) (c : Client) → (send_status status c).body ≡ c.body
unfolding send_status
send_status-body status c = ground arith

-- What was sent stays.
send_status-keeps :
    (status : ℕ) (c : Client) (x : ℕ × Header)
    → c.sent ≡ some x
    → (send_status status c).sent ≡ some x
unfolding send_status
send_status-keeps status c x h = ground arith

pub send_body-Sent :
    (status : ℕ) (p : Text) (c : Client) → SentStatus status c → SentStatus status (send_body p c)
unfolding send_body
send_body-Sent status p c h = (h.0, send_status-keeps 200 c (status, h.0) h.1)

pub send_body-body : (p : Text) (c : Client) → (send_body p c).body ≡ c.body ++ p
unfolding send_body
send_body-body p c = refl

http_error-Sent :
    (n status : ℕ) (message : Text) (c : Client)
    → SentStatus n c
    → SentStatus n (http_error message status c)
unfolding http_error
http_error-Sent n status message c h =
    send_body-Sent n (message ++ codes "\n") _ (h.0, send_status-keeps status _ (n, h.0) h.1)

module _ (s : Server) where
  set_last_modified-same :
      (t : Option ℕ) (k : Client)
      → ((set_last_modified s t k).sent ≡ k.sent) × ((set_last_modified s t k).body ≡ k.body)
  unfolding set_last_modified
  set_last_modified-same none k = (refl, refl)
  set_last_modified-same (some t) k = (refl, refl)

  set_conditional-same :
      (resp : Upstream) (k : Client)
      → ((set_conditional_cache_miss_headers s resp k).sent ≡ k.sent)
        × ((set_conditional_cache_miss_headers s resp k).body ≡ k.body)
  unfolding set_conditional_cache_miss_headers
  set_conditional-same resp k =
      let same =
        set_last_modified-same (s.tools.parse_time (header_get (codes "Last-Modified") resp.header))
          k in
      (ground (arith, same.0), ground (arith, same.1))

  -- A step before the answer refuses the request, or leaves the answer open.
  pub record Stepped (k : Client) (x : Client × Bool) : Type 0 where
    pub ended : x.1 ≡ false → Refused x.0 ⊎ ((x.0.sent ≡ none) × (s.faults.create ≡ true))
    pub same : x.1 ≡ true → (x.0.sent ≡ k.sent) × (x.0.body ≡ k.body)

  Stepped-if :
      (k : Client) (b : Bool) {x y : Client × Bool}
      → (b ≡ true → Stepped k x)
      → Stepped k y
      → Stepped k (if b then x else y)
  Stepped-if k true h j = h refl
  Stepped-if k false h j = j

  refused-Stepped :
      (message : Text) (status : ℕ) (k : Client)
      → k.sent ≡ none
      → 400 ≤ status
      → Stepped k (http_error message status k, false)
  refused-Stepped message status k h le = record {
    ended = λ e. inl (http_error-Refused message status k h le);
    same = λ e. absurd (cc (e));
  }

  pub prepare-Stepped :
      (name : Text) (resp : Upstream) (c : Client)
      → c.sent ≡ none
      → Stepped c (prepare_cache_miss_target s name resp c)
  unfolding prepare_cache_miss_target
  prepare-Stepped name resp c h =
      Stepped-if c s.faults.mkdir
        (λ e. refused-Stepped (codes "Error creating cache directory") 500 c h (omega arith))
        (Stepped-if c
          (is_pos resp.content_length
            && is_some (ensure_disk_space s.tools.file_system name resp.content_length))
          (λ e.
            refused-Stepped (codes "Insufficient storage on cache server") 507 c h (omega arith))
          (record { ended = λ e. absurd (cc (e)); same = λ e. set_conditional-same resp _ }))

  pub create-Stepped :
      (resp : Upstream) (k : Client)
      → k.sent ≡ none
      → Stepped k (create_cache_miss_temp_file s resp k)
  unfolding create_cache_miss_temp_file
  create-Stepped resp k h =
      Stepped-if k s.faults.create
        (λ e. record { ended = λ q. inr (h, e); same = λ q. absurd (cc (q)) })
        (Stepped-if k (is_pos resp.content_length && s.faults.preallocate)
          (λ e. refused-Stepped (codes "Error reserving storage") 500 k h (omega arith))
          (record { ended = λ e. absurd (cc (e)); same = λ e. (refl, refl) }))

  copied-Sent :
      (n : Option ℕ) (status : ℕ) (resp : Upstream) (k : Client)
      → SentStatus status k
      → SentStatus status (copied s n resp k).0
  unfolding copied
  copied-Sent none status resp k h = send_body-Sent status resp.body k h
  copied-Sent (some n) status resp k h = send_body-Sent status (take n resp.body) k h

  copied-body :
      (n : Option ℕ) (resp : Upstream) (k : Client)
      → (copied s n resp k).1 ≡ true
      → (copied s n resp k).0.body ≡ k.body ++ resp.body
  unfolding copied
  copied-body none resp k h = send_body-body resp.body k
  copied-body (some n) resp k h = absurd (cc (h))

  pub streamed-Sent :
      (resp : Upstream) (k : Client)
      → resp.status ≡ 200
      → k.sent ≡ none
      → SentStatus 200 (stream_response_to_client_and_cache s resp k).0
  unfolding stream_response_to_client_and_cache
  streamed-Sent resp k hs h =
      copied-Sent s.faults.copy 200 resp (send_status resp.status k)
        (rw hs (send_status-sent 200 k h))

  pub streamed-body :
      (resp : Upstream) (k : Client)
      → (stream_response_to_client_and_cache s resp k).1 ≡ true
      → (stream_response_to_client_and_cache s resp k).0.body ≡ k.body ++ resp.body
  unfolding stream_response_to_client_and_cache
  streamed-body resp k h =
      copied-body s.faults.copy resp (send_status resp.status k) h
      ∙ ap (λ (t : Text). t ++ resp.body) (send_status-body resp.status k)

  pub finish-Sent :
      (k : Client) → SentStatus 200 k → SentStatus 200 (finalize_cache_miss_file s k).0
  unfolding finalize_cache_miss_file
  finish-Sent k h = elim (Bool-cases s.faults.rename) [
    | inl e ↦ rw e (http_error-Sent 200 500 (codes "Error renaming file") k h)
    | inr e ↦ rw e h
  ]

  pub finish-body :
      (k : Client) → (finalize_cache_miss_file s k).1 ≡ true → (finalize_cache_miss_file s k).0 ≡ k
  unfolding finalize_cache_miss_file
  finish-body k h = ground arith
