-- ===== src/Proxy/Overrides.antt =====
-- The rules of checkOverrides (cmd/goaptcacher/overrides.go).
use go_aptcacher.Base.{◌≡◌, sym, inl, inr, List, [], arith, Bool-cases, if_true, if_false}
use mathlib.Core.Path.{subst}
use go_aptcacher.Base.Text.{Text, codes, is_empty}
use go_aptcacher.Proxy.{
  Request, Config, with_path, remap_path, send_to, split_server, override_ubuntu,
  override_debian_mirror, override_deb, override_debian, check_overrides,
}

-- The host that is asked and the one in the URL are the same.
abbrev pub IsConsistent : Request → Type 0
IsConsistent r = r.url.host ≡ r.host

send_to-IsConsistent : (target : Text × Text) (r : Request) → IsConsistent (send_to target r)
unfolding send_to
send_to-IsConsistent (host, path) r = ground arith

override_ubuntu-IsConsistent :
    (server : Text) (r : Request) → IsConsistent r → IsConsistent (override_ubuntu server r)
unfolding override_ubuntu
override_ubuntu-IsConsistent server r h =
    ground (arith, send_to-IsConsistent (split_server server) r)

override_debian_mirror-IsConsistent :
    (target : Text × Text) (r : Request)
    → IsConsistent r
    → IsConsistent (override_debian_mirror target r)
unfolding override_debian_mirror
override_debian_mirror-IsConsistent target r h = ground (arith, send_to-IsConsistent target r)

override_deb-IsConsistent :
    (target : Text × Text) (r : Request) → IsConsistent r → IsConsistent (override_deb target r)
unfolding override_deb
override_deb-IsConsistent target r h =
    ground (
      arith,
      send_to-IsConsistent target r,
      send_to-IsConsistent (codes "security.debian.org", []) r,
    )

override_debian-IsConsistent :
    (server : Text) (r : Request) → IsConsistent r → IsConsistent (override_debian server r)
unfolding override_debian
override_debian-IsConsistent server r h =
    let target = split_server server in
    let moved =
      override_deb-IsConsistent target (override_debian_mirror target r)
        (override_debian_mirror-IsConsistent target r h) in
    elim (Bool-cases (is_empty server)) [
      | inl e ↦ subst IsConsistent (sym (if_true _ _ e)) h
      | inr e ↦ subst IsConsistent (sym (if_false _ _ e)) moved
    ]

-- If the Host of a request is the host of its URL, it still is after all the rules.
pub check_overrides-IsConsistent :
    (c : Config) (r : Request) → IsConsistent r → IsConsistent (check_overrides c r)
unfolding check_overrides
check_overrides-IsConsistent c r h =
    let remapped = with_path (remap_path c.remap r.url.path) r in
    override_debian-IsConsistent c.debian_server (override_ubuntu c.ubuntu_server remapped)
      (override_ubuntu-IsConsistent c.ubuntu_server remapped h)
