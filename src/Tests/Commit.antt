-- ===== src/Tests/Commit.antt =====
-- Passes over one file into a store that fails once.
use eidetic_daemon.Prelude.{
  pos, negsuc, String, ◌≡◌, refl, Option, some, List, [], ◌∷◌, true, false,
}
use eidetic_daemon.Capture.State.{
  Data, Offsets, State, Json, starting, load_content, load_state, file_of, offset_of, put_offset,
  offsets_of, put_offsets, get_in, get, set, save,
}
use eidetic_daemon.Capture.State.Names.{AreNames, IsNamed, ReadsBack}
use eidetic_daemon.Capture.State.Roundtrip.{sets, saves, Use, use_all, load_state-save}
use eidetic_daemon.Capture.Commit.{Parser, Capture, parse_and_commit}
use eidetic_daemon.Capture.Commit.Progress.{Progress, parse_and_commit-Progress}
use eidetic_daemon.Tests.Sqlite.{sqlite}
use eidetic_daemon.Tests.Fixtures.{note, reply, failing}

abbrev saved : Data
saved = ("cursor", ("a.json", pos 4) ∷ []) ∷ []

-- A state file stands for its data, and every name is UTF-8.
abbrev plain : Json Data
plain = record { encode = λ d. d; decode = some; is_blank = λ _. false; is_text = λ _. true }

abbrev used : List Use
used =
    sets "cursor" "b.json" (pos 7)
    ∷ saves true
    ∷ sets "antigravity" "c.pb" (pos 3)
    ∷ sets "cursor" "a.json" (negsuc 8)
    ∷ []

-- Every file holds two notes and ends at 30.
abbrev two_notes : String → Option Parser
two_notes surface = some (λ path from. some (note ∷ reply ∷ [], pos 30))

abbrev before : Capture
before = record { session = failing; state = starting saved; skipped = 0 }

names : (m : Offsets) → AreNames plain m
names [] = tt
names (_ ∷ m) = (refl, names m)

named : (d : Data) → IsNamed plain d
named [] = tt
named ((_, m) ∷ d) = ((refl, names m), named d)

plain-ReadsBack : ReadsBack plain
plain-ReadsBack = record {
  full = λ _. refl;
  named = λ _ d _. named d;
  reads = λ d _. (d, refl, λ _ _. refl);
}

loads : load_state plain false (some saved) ≡ some (starting saved)
unfolding load_state load_content
loads = refl

used_offset : get "cursor" "a.json" (use_all used (starting saved)) ≡ negsuc 8
unfolding use_all get get_in set save offset_of put_offset offsets_of put_offsets
used_offset = refl

save_returns : (save false (use_all used (starting saved))).0 ≡ true
unfolding use_all get get_in set save offset_of put_offset offsets_of put_offsets
save_returns = refl

load_state-save_example :
    (again : State) × (load_state plain false
        (file_of plain (some saved) (save false (use_all used (starting saved))).1)
      ≡ some again)
    × ((surface path : String)
        → get surface path again ≡ get surface path (use_all used (starting saved)))
load_state-save_example =
    load_state-save plain plain-ReadsBack (some saved) (starting saved) used false loads
      ((refl, refl), (tt, ((refl, refl), ((refl, refl), tt)))) save_returns

parse_and_commit-Progress_example :
    Progress sqlite two_notes false "cursor" "a.json" before
      (parse_and_commit sqlite two_notes false "cursor" "a.json" before)
parse_and_commit-Progress_example =
    parse_and_commit-Progress sqlite two_notes false "cursor" "a.json" before
