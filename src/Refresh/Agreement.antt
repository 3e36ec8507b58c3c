-- ===== src/Refresh/Agreement.antt =====
-- The outcomes of refreshFile of pkg/fscache/evaluate.go.
use go_aptcacher.Base.{
  ℕ, ◌≡◌, refl, sym, ◌∙◌, Bool, true, false, Option, none, some, if◌then◌else◌, length,
}
use mathlib.Core.Path.{subst}
use go_aptcacher.Base.Int.{ℤ}
use go_aptcacher.Base.Text.{Text}
use go_aptcacher.Base.Map.{Map, lookup, delete}
use go_aptcacher.LocalPath.{Url, determine_protocol_from_url}
use go_aptcacher.Locks.{Time}
use go_aptcacher.Access.{AccessEntry}
use go_aptcacher.Access.Methods.{get}
use go_aptcacher.Refresh.Download.{
  Response, DownloadError, Downloaded, has_wrong_size, download_response_to_file,
}
use go_aptcacher.Refresh.Answer.{
  State, Refreshed, unchanged, changed, no_response, not_downloaded, Tools, handle_refresh_status,
  evaluate_not_modified, record_download, answer, refresh_file,
}
use go_aptcacher.Refresh.Outcome.{Ended, ended_failed, ended_well, download-Ended}
use go_aptcacher.Refresh.Recorded.{get-set_sha256-update_file}
use go_aptcacher.Refresh.Settles.{
  handle_refresh_status-same, handle_refresh_status-goes_on, Settles-same,
  evaluate_not_modified-Settles,
}

module _ (t : Tools) where
  module _ (name : Text) (access_url local_file : Url) (s : State) where
    -- The protocol of the entry.
    abbrev protocol : ℕ
    protocol = determine_protocol_from_url access_url

    -- The outcomes of a refresh.
    pub data Concluded : Refreshed × State → Type 0 where
      without_response : Concluded (no_response, s)
      nothing_new :
          (after : State)
          → after.files ≡ s.files
          → after.stats ≡ s.stats
          → Concluded (unchanged, after)
      given_up :
          (error : DownloadError) (after : State)
          → after.cache ≡ s.cache
          → after.stats ≡ s.stats
          → delete t.temp after.files ≡ delete t.temp s.files
          → Concluded (not_downloaded error, after)
      replaced :
          (resp : Response) (entry : AccessEntry) (after : State)
          → resp.status ≡ 200
          → has_wrong_size resp ≡ false
          → lookup name after.files ≡ some resp.body
          → (get t.env protocol local_file.host local_file.path after.cache).0 ≡ (entry, true)
          → entry.size ≡ ℤ.pos (length resp.body)
          → entry.sha256 ≡ t.sha256 resp.body
          → entry.last_checked ≡ t.now
          → Concluded (changed, after)

    record_download-Concluded :
        (resp : Response) (last_modified : Time) (etag : Text) (x : Downloaded × Map Text)
        → resp.status ≡ 200
        → Ended t.sha256 name t.temp resp s.files x
        → Concluded (record_download t access_url local_file protocol last_modified etag s x)
    unfolding record_download
    record_download-Concluded resp last_modified etag _ ok (ended_failed error after kept) =
        given_up error _ refl refl kept
    record_download-Concluded resp last_modified etag _ ok (ended_well after right_size holds) =
        let (r, found) =
          get-set_sha256-update_file t.env protocol local_file.host local_file.path t.now
            last_modified (t.env.urls.string access_url) etag (t.sha256 resp.body)
            (ℤ.pos (length resp.body)) s.cache in
        replaced resp _ _ ok right_size holds found refl refl refl

    answered-Concluded :
        (handled : Bool × State) (evaluated : (Time × Text × Bool) × State)
        (rest : Refreshed × State)
        → (handled.1.files ≡ s.files) × (handled.1.stats ≡ s.stats)
        → (evaluated.1.files ≡ handled.1.files) × (evaluated.1.stats ≡ handled.1.stats)
        → (handled.0 ≡ false → evaluated.0.2 ≡ false → Concluded rest)
        → Concluded (
            if handled.0
            then (unchanged, handled.1)
            else if evaluated.0.2
            then (unchanged, evaluated.1)
            else rest)
    answered-Concluded (true, h) evaluated rest of_h of_e k = nothing_new h of_h.0 of_h.1
    answered-Concluded (false, h) ((time, etag, true), e) rest of_h of_e k =
        nothing_new e (of_e.0 ∙ of_h.0) (of_e.1 ∙ of_h.1)
    answered-Concluded (false, h) ((time, etag, false), e) rest of_h of_e k = k refl refl

    -- The download for a response, from a state.
    download_in : Response → State → Downloaded × Map Text
    download_in resp after =
        download_response_to_file t.sha256 t.file_system t.fault name t.temp resp after.files

    downloading-Concluded :
        (resp : Response) (last_modified : Time) (etag : Text) (after : State)
        → resp.status ≡ 200
        → after ≡ s
        → Concluded (
            record_download t access_url local_file protocol last_modified etag after
              (download_in resp after))
    unfolding download_in
    downloading-Concluded resp last_modified etag after ok same =
        subst
          (λ (x : State). Concluded (
            record_download t access_url local_file protocol last_modified etag x
              (download_in resp x)))
          (sym same)
          (record_download-Concluded resp last_modified etag (download_in resp s) ok
            (download-Ended t.sha256 name t.temp resp s.files t.file_system t.fault))

    answer-Concluded :
        (last_access : AccessEntry) (resp : Response)
        → Concluded (answer t name access_url local_file protocol last_access resp s)
    unfolding answer download_in
    answer-Concluded last_access resp =
        let handled = handle_refresh_status t resp.status protocol local_file s in
        let evaluated = evaluate_not_modified t resp local_file protocol last_access handled.1 in
        let settles =
          evaluate_not_modified-Settles t resp local_file protocol last_access handled.1 in
        answered-Concluded handled evaluated
          (record_download t access_url local_file protocol evaluated.0.0 evaluated.0.1 evaluated.1
            (download_in resp evaluated.1))
          (handle_refresh_status-same t resp.status protocol local_file s) (settles.0, settles.1)
          (λ h k.
            let (ok, same) = handle_refresh_status-goes_on t resp.status protocol local_file s h in
            downloading-Concluded resp evaluated.0.0 evaluated.0.1 evaluated.1 ok
              (Settles-same t handled.1 evaluated.1 settles k ∙ same))

    -- Every refresh, whatever the origin answers and whatever fails, ends in one of these ways. It got
    -- no response, and all is as it was. It found nothing new, and files and statistics are as they
    -- were. Its download failed, and records, statistics and all files but the temporary one are as
    -- they were. Or it reports a change: then the status was 200, the body is not of another size than
    -- announced, the file holds it, and Get finds its size, its hash and the time of this check.
    pub refresh_file-Concluded :
        (last_access : AccessEntry) (response : Option Response)
        → Concluded (refresh_file t name access_url local_file last_access response s)
    unfolding refresh_file
    refresh_file-Concluded last_access none = without_response
    refresh_file-Concluded last_access (some resp) = answer-Concluded last_access resp
