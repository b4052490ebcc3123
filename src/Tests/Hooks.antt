-- ===== src/Tests/Hooks.antt =====
-- A hook with a limit of 60 seconds, while three engrams come in.
use eidetic_daemon.Prelude.{
  arith, negsuc, ℕ, ℤ, pos, ◌*◌, ◌-ℤ◌, ◌≡◌, refl, map, codes, contains, has_prefix, Option, none,
  some, [], ◌∷◌, false,
}
use eidetic_daemon.TextSearch.{Text}
use eidetic_daemon.Dict.{lookup, put}
use eidetic_daemon.Hooks.{
  HookSpec, Dispatcher, Regex, new_dispatcher, matches, min_interval, can_fire, each_hook, maybe,
  maybe_all,
}
use eidetic_daemon.Hooks.Spacing.{Spaced, insert_all, insert_plain, insert_all-Spaced}
use eidetic_daemon.Tests.Sqlite.{sqlite}
use eidetic_daemon.Tests.Fixtures.{note, reply, failing}

abbrev pager : HookSpec
pager = record {
  name = codes "pager";
  url = codes "https://h";
  match_pattern = codes "h";
  match_surface = "";
  include_payload = false;
  min_interval_sec = pos 60;
}

abbrev no_regex : Text → Option Regex
no_regex pattern = none

abbrev dispatcher : Dispatcher
dispatcher = record { hooks = pager ∷ []; last_at = []; regexes = []; counts = []; reads = 0 }

-- Every reading is 40 seconds after the one before it.
abbrev clock : ℕ → ℤ
clock n = pos (n * 40000000000)

abbrev same_case : Text → Text
same_case t = t

first_and_third :
    map (λ f. f.limited) (maybe_all clock same_case (note ∷ reply ∷ note ∷ []) dispatcher).0
    ≡ some (pos 0) ∷ some (pos 80000000000) ∷ []
unfolding maybe_all maybe each_hook matches can_fire contains has_prefix lookup put ◌-ℤ◌
first_and_third = refl

no_hooks : new_dispatcher no_regex (some []) ≡ none
unfolding new_dispatcher
no_hooks = refl

insert_all-Spaced_example :
    let (fired, s') =
      insert_all clock same_case sqlite
        ((note ∷ reply ∷ []) ∷ (note ∷ []) ∷ [])
        failing
        dispatcher in
    Spaced dispatcher.last_at fired
    × (s' ≡ insert_plain sqlite ((note ∷ reply ∷ []) ∷ (note ∷ []) ∷ []) failing)
insert_all-Spaced_example =
    insert_all-Spaced clock same_case sqlite ((note ∷ reply ∷ []) ∷ (note ∷ []) ∷ []) failing
      dispatcher (omega arith, tt)

-- So many seconds come to a negative interval, after which the hook may always fire.
wrapped :
    min_interval (record pager { min_interval_sec = pos 10000000000 }) ≡ negsuc 8446744073709551615
wrapped = refl
