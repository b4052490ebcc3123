-- ===== src/Tests/Fixtures.antt =====
-- Small engrams, calls and databases for the other tests.
use eidetic_daemon.Prelude.{pos, refl, codes, none, some, List, [], ◌∷◌}
use eidetic_daemon.Engram.{Engram, text}
use eidetic_daemon.Store.Schema.{Db, empty_db}
use eidetic_daemon.Store.Session.{Session}
use eidetic_daemon.Store.Read.{count_of, sum_counts}
use eidetic_daemon.Store.Write.{insert_batch}
use eidetic_daemon.Store.Consistency.{IsConsistent}
use eidetic_daemon.Store.Invariant.{
  Call, insert_one, insert_many, delete_one, purge_surface, insert_batch-Keeps,
}
use eidetic_daemon.Tests.Sqlite.{sqlite}

abbrev pub note : Engram
note = record {
  id = pos 0;
  surface = "cursor";
  ts = pos 70;
  payload = codes "hello";
  meta = text [];
  snippet = [];
}

abbrev pub reply : Engram
reply = record note { surface = "cowork"; payload = codes "hi" }

pub empty_db-IsConsistent : IsConsistent empty_db
unfolding count_of sum_counts
empty_db-IsConsistent = record {
  counted = λ s. refl;
  total = refl;
  indexed = refl;
  distinct = tt;
  positive = tt;
  valid = tt;
}

abbrev pub calls : List Call
calls =
    insert_one note
    ∷ insert_many (note ∷ reply ∷ [])
    ∷ delete_one (pos 2)
    ∷ purge_surface "cursor" (pos 0)
    ∷ []

-- The last statement of the batch fails: nothing of it is stored.
abbrev pub failing : Session
failing = record {
  db = empty_db;
  faults = none ∷ none ∷ none ∷ none ∷ none ∷ some "disk full" ∷ [];
}

-- What is left of a batch of which a statement may fail.
abbrev pub after_calls : Db
after_calls = (insert_batch sqlite (note ∷ reply ∷ []) failing).1.db

pub after_calls-IsConsistent : IsConsistent after_calls
after_calls-IsConsistent =
    (insert_batch-Keeps sqlite (note ∷ reply ∷ [])).keeps failing empty_db-IsConsistent
