-- ===== src/Refresh/Outcome.antt =====
-- How a download of pkg/fscache/evaluate.go ends.
use go_aptcacher.Base.{
  ◌≡◌, refl, ◌∙◌, Bool, true, false, ◌&&◌, [], ◌∷◌, some, arith, if◌then◌else◌, length, is_some,
}
use go_aptcacher.Base.Int.{is_pos}
use go_aptcacher.Base.Text.{Text, text_eq_refl}
use go_aptcacher.Base.Map.{Map, lookup, insert, delete, lookup-insert_self}
use go_aptcacher.Storage.{FileSystem, ensure_disk_space}
use go_aptcacher.Refresh.Download.{
  Response, DownloadFault, no_fault, random_fault, create_fault, preallocate_fault, copy_fault,
  close_fault, hash_fault, rename_fault, DownloadError, no_space, Downloaded, failed, downloaded,
  has_wrong_size, clean_up, finish, download_to_temp, download_response_to_file,
}

pub delete-twice : (k : Text) (m : Map Text) → delete k (delete k m) ≡ delete k m
unfolding delete
delete-twice k [] = refl
delete-twice k ((j, v) ∷ m) = ground (arith, delete-twice k m)

pub delete-insert_self : (k v : Text) (m : Map Text) → delete k (insert k v m) ≡ delete k m
unfolding delete insert
delete-insert_self k v [] = ground (arith, text_eq_refl k)
delete-insert_self k v ((j, w) ∷ m) = ground (arith, text_eq_refl k, delete-insert_self k v m)

module _ (sha256 : Text → Text) (name temp : Text) (resp : Response) (files : Map Text) where
  -- A download fails and leaves the files as they were, but for the temporary one, or gives the size and
  -- the hash of what is then in the file.
  pub data Ended : Downloaded × Map Text → Type 0 where
    ended_failed :
        (error : DownloadError) (after : Map Text)
        → delete temp after ≡ delete temp files
        → Ended (failed error, after)
    ended_well :
        (after : Map Text)
        → has_wrong_size resp ≡ false
        → lookup name after ≡ some resp.body
        → Ended (downloaded (length resp.body) (sha256 resp.body), after)

  cleaned-Ended : (error : DownloadError) → Ended (clean_up temp error files)
  unfolding clean_up
  cleaned-Ended error = ended_failed error (delete temp files) (delete-twice temp files)

  written-Ended :
      (error : DownloadError) → Ended (clean_up temp error (insert temp resp.body files))
  unfolding clean_up
  written-Ended error =
      ended_failed error _
        (delete-twice temp (insert temp resp.body files) ∙ delete-insert_self temp resp.body files)

  Ended-if :
      (b : Bool) {x y : Downloaded × Map Text}
      → (b ≡ true → Ended x)
      → (b ≡ false → Ended y)
      → Ended (if b then x else y)
  Ended-if true h k = h refl
  Ended-if false h k = k refl

  download_to_temp-Ended :
      (fault : DownloadFault) → Ended (download_to_temp sha256 fault name temp resp files)
  unfolding download_to_temp finish
  download_to_temp-Ended random_fault = ended_failed _ files refl
  download_to_temp-Ended create_fault = cleaned-Ended _
  download_to_temp-Ended preallocate_fault = cleaned-Ended _
  download_to_temp-Ended copy_fault = cleaned-Ended _
  download_to_temp-Ended close_fault = cleaned-Ended _
  download_to_temp-Ended hash_fault =
      Ended-if (has_wrong_size resp) (λ h. written-Ended _) (λ h. written-Ended _)
  download_to_temp-Ended rename_fault =
      Ended-if (has_wrong_size resp) (λ h. written-Ended _) (λ h. written-Ended _)
  download_to_temp-Ended no_fault =
      Ended-if (has_wrong_size resp) (λ h. written-Ended _)
        (λ h. ended_well _ h (lookup-insert_self name resp.body _))

  pub download-Ended :
      (fs : FileSystem) (fault : DownloadFault)
      → Ended (download_response_to_file sha256 fs fault name temp resp files)
  unfolding download_response_to_file
  download-Ended fs fault =
      Ended-if
        (is_pos resp.content_length && is_some (ensure_disk_space fs name resp.content_length))
        (λ h. ended_failed no_space files refl) (λ h. download_to_temp-Ended fault)
