-- ===== src/Request/Ends.antt =====
-- Every GET request ends: serveGETRequest, serveGETRequestCacheMiss and serveRecoveredCacheMiss of
-- pkg/fscache/request_get.go call one another, but not without end.
use go_aptcacher.Base.{
  ℕ, zero, suc, ◌≡◌, refl, sym, ◌∙◌, Bool, true, false, Option, none, some, arith, if◌then◌else◌,
  Bool-cases, inl, inr, ◌&&◌, is_some,
}
use mathlib.Core.Path.{subst}
use go_aptcacher.Base.Text.{Text}
use go_aptcacher.Base.Map.{lookup-insert_self}
use go_aptcacher.Keys.{lock_key}
use go_aptcacher.LocalPath.{Url, build_local_path, determine_protocol_from_url}
use go_aptcacher.Locks.{
  has_write_lock, has_file_lock, put_write_lock, create_write_lock, create_exclusive_write_lock,
}
use go_aptcacher.Access.{AccessEntry}
use go_aptcacher.Request.{World, Server}
use go_aptcacher.Request.Messages.{Client, ClientRequest}
use go_aptcacher.Request.Serve.{
  Run, stat, take_lock, is_stale, drop_stale, get_entry, recover_or_fetch, serve_with_lock,
  unlock_after, serve_get_request_cache_miss, is_pool_file, serve_found, serve_get_request,
  basic_headers,
}

-- The call returns.
abbrev pub Returns : Option (Client × World) → Type 0
Returns x = (y : Client × World) × (x ≡ some y)

-- Somebody has the write lock of a URL.
abbrev pub IsLocked : ℕ → Url → World → Type 0
IsLocked protocol u w = (has_write_lock protocol u.host u.path w.locks).0 ≡ true

module _ (s : Server) (r : ClientRequest) where
  abbrev pub protocol : ℕ
  protocol = determine_protocol_from_url r.url

  -- While the request has the lock of its file, nobody else takes it away.
  abbrev pub RespectsLock : Type 0
  RespectsLock = (w : World) → IsLocked protocol r.url w → IsLocked protocol r.url (s.others true w)

  Returns-if :
      (b : Bool) {x y : Option (Client × World)}
      → (b ≡ true → Returns x)
      → (b ≡ false → Returns y)
      → Returns (if b then x else y)
  Returns-if true h k = h refl
  Returns-if false h k = k refl

  take_lock-locked :
      (w : World) → IsLocked protocol r.url w → take_lock s protocol r.url w ≡ (false, w)
  unfolding take_lock create_exclusive_write_lock
  take_lock-locked w h = rw h refl

  take_lock-IsLocked :
      (w : World)
      → IsLocked protocol r.url w
      → IsLocked protocol r.url (take_lock s protocol r.url w).1
  take_lock-IsLocked w h = rw (take_lock-locked w h) h

  -- A lock that was taken is held.
  take_lock-taken :
      (w : World)
      → (take_lock s protocol r.url w).0 ≡ true
      → IsLocked protocol r.url (take_lock s protocol r.url w).1
  unfolding take_lock create_exclusive_write_lock create_write_lock put_write_lock
  take_lock-taken w h =
      elim (Bool-cases (has_write_lock protocol r.url.host r.url.path w.locks).0) [
        | inl e ↦ absurd (ground arith)
        | inr e ↦ elim (Bool-cases (has_file_lock protocol r.url.host r.url.path w.locks).0) [
          | inl q ↦ absurd (ground arith)
          | inr q ↦
              rw (e, q)
                (unfold has_write_lock in
                  rw
                    (lookup-insert_self (lock_key protocol r.url.host r.url.path) s.tools.now
                      w.locks.write_lock)
                    refl)
        ]
      ]

  serve_found-Returns :
      (miss : Run) (name : Text) (found : (AccessEntry × Bool) × World) (c : Client)
      → ((c' : Client) (w' : World) → w'.locks ≡ found.1.locks → Returns (miss (c', w')))
      → Returns (serve_found s miss protocol r name found c)
  unfolding serve_found drop_stale
  serve_found-Returns miss name ((last_access, false), w) c h = h c w refl
  serve_found-Returns miss name ((last_access, true), w) c h =
      Returns-if (is_stale last_access (stat name w)) (λ e. h c _ refl) (λ e. (_, refl))

  get_entry-locks : (w : World) → (get_entry s protocol r.url w).1.locks ≡ w.locks
  unfolding get_entry
  get_entry-locks w = refl

  serve-Returns :
      (fuel : ℕ) (held : Bool) (c : Client) (w : World)
      → ((c' : Client) (w' : World)
          → w'.locks ≡ w.locks
          → Returns
              (serve_get_request_cache_miss s (serve_get_request s fuel true r) held 26 r (c', w')))
      → Returns (serve_get_request s (suc fuel) held r (c, w))
  unfolding serve_get_request
  serve-Returns fuel held c w h =
      let name = build_local_path s.tools.env.layout r.url in
      Returns-if (is_pool_file name && is_some (stat name w)) (λ e. (_, refl))
        (λ e.
          serve_found-Returns
            (serve_get_request_cache_miss s (serve_get_request s fuel true r) held 26 r) name
            (get_entry s protocol r.url w) (basic_headers s c)
            (λ c' w' q. h c' w' (q ∙ get_entry-locks w)))

  module _ (respects : RespectsLock) where
    -- Nested in a call that has the lock, a request waits for itself until it gives up.
    miss_nested :
        (again : Run) (left : ℕ) (c : Client) (w : World)
        → IsLocked protocol r.url w
        → Returns (serve_get_request_cache_miss s again true left r (c, w))
    unfolding serve_get_request_cache_miss
    miss_nested again zero c w h = (_, refl)
    miss_nested again (suc left) c w h =
        Returns-if (take_lock s protocol r.url w).0 (λ e. absurd (cc (e, take_lock-locked w h)))
          (λ e.
            miss_nested again left c (s.others true (take_lock s protocol r.url w).1)
              (respects (take_lock s protocol r.url w).1 (take_lock-IsLocked w h)))

    serve_nested :
        (fuel : ℕ) (c : Client) (w : World)
        → IsLocked protocol r.url w
        → Returns (serve_get_request s (suc fuel) true r (c, w))
    serve_nested fuel c w h = serve-Returns fuel true c w (λ c' w' q.
        miss_nested (serve_get_request s fuel true r) 26 c' w'
          (subst (λ l. (has_write_lock protocol r.url.host r.url.path l).0 ≡ true) (sym q) h))

    unlock_after-Returns :
        (x : Option (Client × World)) → Returns x → Returns (unlock_after protocol r.url x)
    unfolding unlock_after
    unlock_after-Returns none h = absurd (cc (h.1))
    unlock_after-Returns (some (c, w)) h = (_, refl)

    module _ (again : Run)
        (total : (c : Client) (w : World)
          → IsLocked protocol r.url w
          → Returns (again (c, w))) where
      recover_or_fetch-Returns :
          (name : Text) (content : Option Text) (c : Client) (w : World)
          → IsLocked protocol r.url w
          → Returns (recover_or_fetch s again protocol r name content (c, w))
      unfolding recover_or_fetch
      recover_or_fetch-Returns name none c w h = (_, refl)
      recover_or_fetch-Returns name (some content) c w h =
          Returns-if s.faults.hash (λ e. (_, refl)) (λ e. total _ _ h)

      serve_with_lock-Returns :
          (c : Client) (w : World)
          → IsLocked protocol r.url w
          → Returns (serve_with_lock s again protocol r (c, w))
      unfolding serve_with_lock get_entry
      serve_with_lock-Returns c w h =
          let name = build_local_path s.tools.env.layout r.url in
          Returns-if (get_entry s protocol r.url w).0.1 (λ e. total _ _ h)
            (λ e.
              recover_or_fetch-Returns name (stat name (get_entry s protocol r.url w).1) c
                (get_entry s protocol r.url w).1 h)

      miss-Returns :
          (left : ℕ) (c : Client) (w : World)
          → Returns (serve_get_request_cache_miss s again false left r (c, w))
      unfolding serve_get_request_cache_miss
      miss-Returns zero c w = (_, refl)
      miss-Returns (suc left) c w =
          Returns-if (take_lock s protocol r.url w).0
            (λ e.
              unlock_after-Returns _
                (serve_with_lock-Returns c (take_lock s protocol r.url w).1 (take_lock-taken w e)))
            (λ e. miss-Returns left c (s.others false (take_lock s protocol r.url w).1))

    -- As long as nobody takes the write lock of the file away while the request has it, a GET request is
    -- answered or given up, whatever is in the cache and the origin does: serveGETRequest calls itself at
    -- most once. (Overlapping calls of the lock functions can take it away, see Locks.Race.)
    pub serve_get_request-Returns :
        (fuel : ℕ) (c : Client) (w : World)
        → Returns (serve_get_request s (suc (suc fuel)) false r (c, w))
    serve_get_request-Returns fuel c w = serve-Returns (suc fuel) false c w (λ c' w' q.
        miss-Returns (serve_get_request s (suc fuel) true r) (serve_nested fuel) 26 c' w')
