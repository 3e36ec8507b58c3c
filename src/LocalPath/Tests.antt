-- ===== src/LocalPath/Tests.antt =====
-- Runs of buildLocalPath (pkg/fscache/fscache.go).
use go_aptcacher.Base.{◌≡◌, refl, Bool, List, [], ◌∷◌, ◌++◌, none, All}
use go_aptcacher.Base.Text.{Text, codes, to_lower, text_eq, trim_left, trim_right}
use go_aptcacher.FilePath.Normal.{IsElement}
use go_aptcacher.FilePath.{clean, render, join_paths, dir, base}
use go_aptcacher.LocalPath.Confined.{build_local_path_confined, build_local_path_scheme}
use go_aptcacher.LocalPath.{Url, Layout, host_directory, build_local_path, determine_protocol}

abbrev layout : Layout
layout = record { cache_path = codes "/var/cache/"; custom_cache_path = none }

abbrev climbing : Url
climbing = record {
  scheme = codes "http";
  host = codes "Deb.Debian.org:80";
  path = codes "/pool/../../../etc/./passwd";
  raw_query = [];
}

-- The ".." of the URL stop at the directory of the host.
climbing_path : build_local_path layout climbing ≡ codes "/var/cache/deb.debian.org/etc/passwd"
unfolding build_local_path to_lower join_paths clean text_eq trim_left trim_right
climbing_path = refl

dots_as_host :
    build_local_path layout (record climbing { host = codes ".."; path = codes "" })
    ≡ codes "/var/cache/_invalid_host"
unfolding build_local_path to_lower join_paths clean text_eq trim_left trim_right
dots_as_host = refl

dir_and_base :
    (dir (codes "/a/b/c") ≡ codes "/a/b")
    × (base (codes "/a/b/") ≡ codes "b")
    × (dir (codes "c") ≡ codes ".")
unfolding dir base text_eq
dir_and_base = (refl, refl, refl)

protocols : (determine_protocol (codes "HTTPS") ≡ 1) × (determine_protocol (codes "ftp") ≡ 0)
unfolding determine_protocol to_lower text_eq
protocols = (refl, refl)

build_local_path_confined_example :
    (rooted : Bool) × (top : List Text) × (below : List Text) × (clean layout.cache_path
      ≡ render rooted top)
    × (build_local_path layout climbing ≡ render rooted (top ++ host_directory climbing ∷ below))
    × All IsElement (host_directory climbing ∷ below)
build_local_path_confined_example = build_local_path_confined layout climbing refl

build_local_path_scheme_example :
    build_local_path layout (record climbing { scheme = codes "https" })
    ≡ build_local_path layout climbing
build_local_path_scheme_example = build_local_path_scheme layout climbing (codes "https") refl
