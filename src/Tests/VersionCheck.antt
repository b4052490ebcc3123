-- ===== src/Tests/VersionCheck.antt =====
-- Tags of releases, and a poll.
use eidetic_daemon.Prelude.{pos, ◌≡◌, refl, codes, has_prefix, true, false, none, some, []}
use eidetic_daemon.TextSearch.{same_text}
use eidetic_daemon.Dict.{lookup, put, remove}
use eidetic_daemon.Files.{try_rename}
use eidetic_daemon.VersionCheck.{
  Checker, digits, part, cut_dot, three_parts, parse_semver, version_less, semver_less,
  update_available, after_tag, new_checker, save_cache, poll_once,
}

suffixed : parse_semver (codes "v1.12.3-rc1") ≡ some (pos 1, pos 12, pos 3)
unfolding parse_semver three_parts cut_dot part digits has_prefix
suffixed = refl

newer : update_available (codes "v0.10.0") (codes "v0.9.7") ≡ true
unfolding update_available semver_less parse_semver three_parts cut_dot part digits has_prefix
    version_less same_text
newer = refl

abbrev fresh : Checker
fresh = new_checker false (codes "d") []

-- What a poll found is there in the next run.
kept :
    let (c, files) = poll_once none false (pos 3) (some (codes "https://h/tag/v2.0.0")) fresh [] in
    (c.latest ≡ codes "v2.0.0") × ((new_checker false (codes "d") files).latest ≡ codes "v2.0.0")
unfolding poll_once after_tag save_cache new_checker lookup put remove try_rename has_prefix
    same_text
kept = (refl, refl)
