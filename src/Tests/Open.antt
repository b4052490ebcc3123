-- ===== src/Tests/Open.antt =====
-- The theorems on Open, Search and Stats at a small database.
use eidetic_daemon.Prelude.{
  suc, ◌+◌, ◌≤◌, ℤ, pos, arith, ◌≡◌, refl, codes, Option, String, none, some, inl, List, [], ◌∷◌,
  length, All,
}
use eidetic_daemon.Engram.{Engram}
use eidetic_daemon.Store.Schema.{Db, empty_db}
use eidetic_daemon.Store.Session.{Session, ok, ◌>>=◌, query}
use eidetic_daemon.Store.Read.{clamp_limit}
use eidetic_daemon.Store.Write.{insert, to_row, validate_engram}
use eidetic_daemon.Store.Lookup.{quiet}
use eidetic_daemon.Store.Consistency.{IsConsistent}
use eidetic_daemon.Store.Open.{open_store}
use eidetic_daemon.Store.Open.Heals.{IsUpgradable, open_store_heals}
use eidetic_daemon.Store.Open.Drift.{open_all, open_store_drifts}
use eidetic_daemon.Store.Search.{search, do_search, retry, answered}
use eidetic_daemon.Store.Search.Phrase.{read_phrase, read_phrase-quote_phrase}
use eidetic_daemon.Store.Search.{quote_phrase}
use eidetic_daemon.Store.Search.Sound.{IsExcerpt, search-Answers}
use eidetic_daemon.Store.Stats.{StatsSnapshot, p95, measured, stats}
use eidetic_daemon.Store.Stats.Bounds.{Takes, Within, stats-Within}
use eidetic_daemon.Tests.Sqlite.{sqlite}
use eidetic_daemon.Tests.Fixtures.{note, after_calls, after_calls-IsConsistent}

-- A file from a version that had neither the index nor the counters.
abbrev old : Db
old = record after_calls { fts = []; counts = [] }

old-IsUpgradable : IsUpgradable old
old-IsUpgradable = record {
  indexed = inl refl;
  counted = inl refl;
  distinct = after_calls-IsConsistent.distinct;
  positive = after_calls-IsConsistent.positive;
  valid = after_calls-IsConsistent.valid;
}

-- The backfill of the index fails.
abbrev locked : Session
locked = record { db = old; faults = none ∷ some "database is locked" ∷ [] }

open_store_heals_example :
    IsConsistent (open_store (quiet (open_store locked).1.db)).1.db
    × ((open_store (quiet (open_store locked).1.db)).1.db.engrams ≡ old.engrams)
open_store_heals_example = open_store_heals locked old-IsUpgradable

note_is_valid : validate_engram note ≡ none
unfolding validate_engram
note_is_valid = refl

-- One row that no counter counts, and one more that is inserted.
abbrev uncounted : Db
uncounted = record empty_db { engrams = to_row (pos 1) note ∷ [] }

-- The daemon starts three times, and the second time the database is locked.
abbrev starts : List (List (Option String))
starts = [] ∷ (none ∷ some "database is locked" ∷ []) ∷ [] ∷ []

open_store_drifts_example :
    ¬ IsConsistent (open_all starts (insert sqlite note (quiet uncounted)).1.db)
open_store_drifts_example =
    open_store_drifts sqlite note uncounted starts refl (omega arith) note_is_valid

abbrev answered_reply : List Engram
answered_reply = (elim (search sqlite (codes "hi") "" (pos 5) (quiet after_calls)).0 [
  | ok out ↦ out
  | _ ↦ []
])

search_finds : (search sqlite (codes "hi") "" (pos 5) (quiet after_calls)).0 ≡ ok answered_reply
unfolding search retry do_search ◌>>=◌ query answered sqlite
search_finds = refl

search-Answers_example :
    All (IsExcerpt "" after_calls.engrams) answered_reply
    × (length answered_reply ≤ clamp_limit 500 (pos 5))
search-Answers_example =
    search-Answers sqlite "" (codes "hi") (pos 5) (quiet after_calls) answered_reply
      after_calls-IsConsistent search_finds

read_phrase-quote_phrase_example :
    read_phrase (quote_phrase (codes "say \"hi\"")) ≡ some (codes "say \"hi\"", [])
read_phrase-quote_phrase_example = read_phrase-quote_phrase (codes "say \"hi\"")

stats-Within_example :
    (snap : StatsSnapshot) × (samples : List ℤ) × Takes
      (stats (λ i. pos (i + 7)) (some 4096))
      after_calls
      snap
      (suc (suc (suc (length samples))))
    × Takes
        (measured (λ i. pos (i + 7)) (pos (length after_calls.engrams)))
        after_calls
        samples
        (length samples)
    × (snap.total ≡ pos (length after_calls.engrams))
    × Within snap.oldest_ns snap.newest_ns after_calls.engrams
    × (snap.p95_lat_ns ≡ p95 samples)
    × (length samples ≤ 39)
stats-Within_example =
    stats-Within (λ i. pos (i + 7)) (some 4096) after_calls after_calls-IsConsistent
