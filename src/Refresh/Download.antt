-- ===== src/Refresh/Download.antt =====
-- downloadResponseToFile of pkg/fscache/evaluate.go.
use go_aptcacher.Base.{ℕ, Bool, not, ◌&&◌, if◌then◌else◌, length, is_some}
use go_aptcacher.Base.Int.{ℤ, is_pos, eqb_ℤ}
use go_aptcacher.Base.Text.{Text}
use go_aptcacher.Base.Map.{Map, insert, delete}
use go_aptcacher.Storage.{FileSystem, ensure_disk_space}

-- A response of the origin. Its headers are those that are read; `body` is what can be read of it.
pub record Response : Type 0 where
  pub status : ℕ
  pub last_modified : Text
  pub etag : Text
  pub content_length : ℤ
  pub body : Text

-- What fails of a download, if anything does.
pub data DownloadFault : Type 0 where
  no_fault random_fault create_fault preallocate_fault copy_fault close_fault : DownloadFault
  hash_fault rename_fault : DownloadFault

pub data DownloadError : Type 0 where
  no_space no_random not_created not_preallocated not_copied not_closed : DownloadError
  size_mismatch not_hashed not_renamed : DownloadError

pub data Downloaded : Type 0 where
  failed : DownloadError → Downloaded
  downloaded : ℕ → Text → Downloaded

unfoldable pub has_wrong_size : Response → Bool
has_wrong_size resp =
    is_pos resp.content_length && not (eqb_ℤ resp.content_length (ℤ.pos (length resp.body)))

-- The deferred os.Remove of the temporary file after an error.
unfoldable pub clean_up : Text → DownloadError → Map Text → Downloaded × Map Text
clean_up temp error files = (failed error, delete temp files)

-- GenerateSHA256Hash reads a file into its hash.
module _ (sha256 : Text → Text) where
  -- The end of a download, from the check of the size on.
  unfoldable pub finish : DownloadFault → Text → Text → Response → Map Text → Downloaded × Map Text
  unfolding has_wrong_size clean_up
  finish hash_fault name temp resp files =
      if has_wrong_size resp
      then clean_up temp size_mismatch files
      else clean_up temp not_hashed files
  finish rename_fault name temp resp files =
      if has_wrong_size resp
      then clean_up temp size_mismatch files
      else clean_up temp not_renamed files
  finish fault name temp resp files =
      if has_wrong_size resp then clean_up temp size_mismatch files else (
        downloaded (length resp.body) (sha256 resp.body),
        insert name resp.body (delete temp files),
      )

  -- From the name of the temporary file on. Where a step fails, the file is removed again; what it held
  -- until then is left out.
  unfoldable pub download_to_temp :
      DownloadFault → Text → Text → Response → Map Text → Downloaded × Map Text
  unfolding finish clean_up
  download_to_temp random_fault name temp resp files = (failed no_random, files)
  download_to_temp create_fault name temp resp files = clean_up temp not_created files
  download_to_temp preallocate_fault name temp resp files = clean_up temp not_preallocated files
  download_to_temp copy_fault name temp resp files = clean_up temp not_copied files
  download_to_temp close_fault name temp resp files = clean_up temp not_closed files
  download_to_temp no_fault name temp resp files =
      finish no_fault name temp resp (insert temp resp.body files)
  download_to_temp hash_fault name temp resp files =
      finish hash_fault name temp resp (insert temp resp.body files)
  download_to_temp rename_fault name temp resp files =
      finish rename_fault name temp resp (insert temp resp.body files)

  -- downloadResponseToFile
  unfoldable pub download_response_to_file :
      FileSystem → DownloadFault → Text → Text → Response → Map Text → Downloaded × Map Text
  unfolding download_to_temp
  download_response_to_file fs fault name temp resp files =
      if is_pos resp.content_length && is_some (ensure_disk_space fs name resp.content_length)
      then (failed no_space, files)
      else download_to_temp fault name temp resp files
