-- ===== src/Refresh/Answer.antt =====
-- refreshFile of pkg/fscache/evaluate.go: what an answer of the origin does to the access cache, the
-- files and the statistics.
use go_aptcacher.Base.{
  ℕ, Bool, true, false, not, ◌&&◌, [], Option, none, some, if◌then◌else◌, ltb, ◌==◌,
}
use go_aptcacher.Base.Int.{ℤ}
use go_aptcacher.Base.Text.{Text, is_empty, text_eq}
use go_aptcacher.Base.Map.{Map}
use go_aptcacher.LocalPath.{Url, determine_protocol_from_url}
use go_aptcacher.Locks.{Time}
use go_aptcacher.Access.{AccessEntry, AccessCache, Env}
use go_aptcacher.Access.Methods.{update_last_checked, mark_for_deletion, update_file, set_sha256}
use go_aptcacher.Stats.{Stats, track_request}
use go_aptcacher.Stats.Day.{Date}
use go_aptcacher.Storage.{FileSystem}
use go_aptcacher.Refresh.Download.{
  Response, DownloadFault, DownloadError, Downloaded, failed, downloaded, download_response_to_file,
}

-- What a refresh works on.
pub record State : Type 0 where
  pub cache : AccessCache
  pub files : Map Text
  pub stats : Stats

pub data Refreshed : Type 0 where
  unchanged changed no_response : Refreshed
  not_downloaded : DownloadError → Refreshed

-- What a refresh reads: the clock, the libraries, and the surroundings of its download.
pub record Tools : Type 0 where
  pub env : Env
  pub now : Time
  pub today : Date
  pub parse_time : Text → Option Time
  pub sha256 : Text → Text
  pub file_system : FileSystem
  pub fault : DownloadFault
  pub temp : Text

module _ (t : Tools) where
  -- UpdateLastChecked at the entry of the refresh.
  unfoldable pub checked : ℕ → Url → State → State
  checked protocol local_file s = record s {
    cache = update_last_checked t.env t.now protocol local_file.host local_file.path s.cache;
  }

  -- handleRefreshStatus
  unfoldable pub handle_refresh_status : ℕ → ℕ → Url → State → Bool × State
  unfolding checked
  handle_refresh_status status protocol local_file s =
      if status == 200
      then (false, s)
      else if status == 304
      then (true, checked protocol local_file s)
      else if status == 404
      then (
        true,
        record s {
          cache = mark_for_deletion t.env t.now protocol local_file.host local_file.path s.cache;
        },
      )
      else (true, s)

  -- resolveRemoteLastModified, after the header was parsed.
  unfoldable pub compare_last_modified :
      Option Time → Url → ℕ → AccessEntry → State → (Time × Bool) × State
  unfolding checked
  compare_last_modified none local_file protocol last_access s =
      ((last_access.remote_last_modified, false), s)
  compare_last_modified (some parsed) local_file protocol last_access s =
      if not (last_access.remote_last_modified == 0) && ltb parsed last_access.remote_last_modified
      then ((parsed, true), checked protocol local_file s)
      else ((parsed, false), s)

  -- resolveRemoteLastModified
  unfoldable pub resolve_remote_last_modified :
      Text → Url → ℕ → AccessEntry → State → (Time × Bool) × State
  unfolding compare_last_modified
  resolve_remote_last_modified header local_file protocol last_access s =
      if is_empty header
      then ((last_access.remote_last_modified, false), s)
      else compare_last_modified (t.parse_time header) local_file protocol last_access s

  -- isUnchangedByETag
  unfoldable pub is_unchanged_by_etag : Text → ℕ → Url → Text → State → Bool × State
  unfolding checked
  is_unchanged_by_etag etag protocol local_file previous s =
      if is_empty etag
      then (false, s)
      else if text_eq etag previous
      then (true, checked protocol local_file s)
      else (false, s)

  -- evaluateNotModified
  unfoldable pub evaluate_not_modified :
      Response → Url → ℕ → AccessEntry → State → (Time × Text × Bool) × State
  unfolding resolve_remote_last_modified is_unchanged_by_etag
  evaluate_not_modified resp local_file protocol last_access s =
      let dated =
        resolve_remote_last_modified resp.last_modified local_file protocol last_access s in
      let tagged = is_unchanged_by_etag resp.etag protocol local_file last_access.etag dated.1 in
      if dated.0.1
      then ((dated.0.0, [], true), dated.1)
      else ((dated.0.0, resp.etag, tagged.0), tagged.1)

  -- The end of refreshFile, after the download. `access_url` is the URL of the entry.
  unfoldable pub record_download :
      Url → Url → ℕ → Time → Text → State → Downloaded × Map Text → Refreshed × State
  record_download access_url local_file protocol last_modified etag s (failed error, files) =
      (not_downloaded error, record s { files = files })
  record_download access_url local_file protocol last_modified etag s
        (downloaded size hash, files) =
      (
        changed,
        record {
          cache = set_sha256 t.env protocol local_file.host local_file.path hash (
              update_file t.env t.now protocol local_file.host local_file.path
                (t.env.urls.string access_url) last_modified etag (ℤ.pos size) s.cache);
          files = files;
          stats = track_request t.today false (ℤ.pos size) s.stats;
        },
      )

  -- refreshFile, from the response on.
  unfoldable pub answer : Text → Url → Url → ℕ → AccessEntry → Response → State → Refreshed × State
  unfolding handle_refresh_status evaluate_not_modified record_download
  answer name access_url local_file protocol last_access resp s =
      let handled = handle_refresh_status resp.status protocol local_file s in
      let evaluated = evaluate_not_modified resp local_file protocol last_access handled.1 in
      if handled.0
      then (unchanged, handled.1)
      else if evaluated.0.2
      then (unchanged, evaluated.1)
      else record_download access_url local_file protocol evaluated.0.0 evaluated.0.1 evaluated.1 (
          download_response_to_file t.sha256 t.file_system t.fault name t.temp resp
            evaluated.1.files)

  -- refreshFile, where the request gets a response or does not.
  unfoldable pub refresh_file :
      Text → Url → Url → AccessEntry → Option Response → State → Refreshed × State
  unfolding answer
  refresh_file name access_url local_file last_access none s = (no_response, s)
  refresh_file name access_url local_file last_access (some resp) s =
      answer name access_url local_file (determine_protocol_from_url access_url) last_access resp s
