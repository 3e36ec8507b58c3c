-- ===== src/LocalPath/Confined.antt =====
-- Where the paths of buildLocalPath (pkg/fscache/fscache.go) lie.
use go_aptcacher.Base.{
  ℕ, ◌≡◌, refl, ap, ◌∙◌, Bool, true, false, List, [], ◌∷◌, ◌++◌, reverse, none, arith, All,
  All-reverse,
}
use go_aptcacher.Base.Text.{
  Text, codes, text_eq, cut_prefix, BeginsOutside, trim-BeginsOutside, trim, to_lower, trim_space,
}
use go_aptcacher.FilePath.Split.{NoSlash}
use go_aptcacher.FilePath.Normal.{IsElement, Kept-rooted, elements, elements-Kept, clean-render}
use go_aptcacher.FilePath.Under.{join_paths_under}
use go_aptcacher.FilePath.{join, is_rooted, render, clean, join_paths}
use go_aptcacher.LocalPath.{
  Url, Layout, is_dot, replace, invalid_host, or_else, hostname, host_directory, trim_prefix,
  relative_path, build_local_path,
}

abbrev escape : Text → Text
escape s = replace b'\\' b'_' (replace b'/' b'_' s)

escape-NoSlash : (s : Text) → NoSlash (escape s)
escape-NoSlash [] = tt
escape-NoSlash (c ∷ cs) = (ground arith, escape-NoSlash cs)

-- A text that is not empty and begins with no dot names a file, once its slashes are replaced.
escape-IsElement : (c : ℕ) (cs : Text) → is_dot c ≡ false → IsElement (escape (c ∷ cs))
escape-IsElement c cs h = record {
  no_slash = escape-NoSlash (c ∷ cs);
  not_empty = unfold text_eq in refl;
  not_dot = unfold text_eq in ground arith;
  not_dot_dot = unfold text_eq in ground arith;
}

escape-or_else : (s : Text) → BeginsOutside is_dot s → IsElement (escape (or_else s invalid_host))
unfolding or_else
escape-or_else [] h = escape-IsElement b'_' (codes "invalid_host") refl
escape-or_else (c ∷ cs) h = escape-IsElement c cs h

host_directory-IsElement : (u : Url) → IsElement (host_directory u)
unfolding host_directory
host_directory-IsElement u =
    let host = to_lower (trim_space (or_else (hostname u) u.host)) in
    escape-or_else (trim is_dot host) (trim-BeginsOutside is_dot host)

trim_prefix-render : (ps : List Text) → trim_prefix (b'/' ∷ []) (render true ps) ≡ join ps
unfolding trim_prefix cut_prefix render
trim_prefix-render ps = refl

-- The path below the host is made of names only, whatever ".." the URL holds.
relative_path_elements :
    (u : Url) → (cs : List Text) × (relative_path u ≡ join cs) × All IsElement cs
unfolding relative_path is_rooted
relative_path_elements u =
    let s : Text = b'/' ∷ replace b'\\' b'/' u.path in
    (
      reverse (elements s),
      ap (trim_prefix (b'/' ∷ [])) (clean-render s) ∙ trim_prefix-render (reverse (elements s)),
      All-reverse IsElement (elements s) (Kept-rooted (elements s) (elements-Kept s)),
    )

-- With no custom layout the local path of any URL is the cleaned cache directory, then the
-- directory of the host, then names, all of them proper names of a file or directory: none is
-- empty, ".", ".." or holds a slash. No URL reaches a file outside the cache directory, or the
-- directory itself.
pub build_local_path_confined :
    (l : Layout) (u : Url)
    → l.custom_cache_path ≡ none
    → (rooted : Bool) × (top : List Text) × (below : List Text) × (clean l.cache_path
        ≡ render rooted top)
      × (build_local_path l u ≡ render rooted (top ++ host_directory u ∷ below))
      × All IsElement (host_directory u ∷ below)
build_local_path_confined l u h =
    let (cs, path, names) = relative_path_elements u in
    let host = host_directory-IsElement u in
    let rooted = is_rooted l.cache_path in
    let kept = elements l.cache_path in
    (
      rooted,
      reverse kept,
      cs,
      clean-render l.cache_path,
      unfold build_local_path in
          rw (h, build_local_path)
            (ap (λ r. join_paths (clean l.cache_path ∷ host_directory u ∷ r ∷ [])) path
              ∙ ap (λ b. join_paths (b ∷ host_directory u ∷ join cs ∷ []))
                  (clean-render l.cache_path)
              ∙ join_paths_under rooted kept (elements-Kept l.cache_path) (host_directory u) cs host
                  names),
      (host, names),
    )

-- The scheme is not looked at: http and https URLs of a host and path share their file.
pub build_local_path_scheme :
    (l : Layout) (u : Url) (scheme : Text)
    → l.custom_cache_path ≡ none
    → build_local_path l (record u { scheme = scheme }) ≡ build_local_path l u
build_local_path_scheme l u scheme h =
    unfold build_local_path hostname host_directory relative_path in rw (h, build_local_path)
