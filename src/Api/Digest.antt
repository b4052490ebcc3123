-- ===== src/Api/Digest.antt =====
-- `handleDigest`, `topN` and `topNInt` of internal/api/routes.go: a summary of a time window. The hour
-- of a time, in the local zone, is a parameter, and so is the order in which the runtime iterates over a
-- map. A map of counters is the list of its entries.
pub mod Summary
use eidetic_daemon.Prelude.{
  SameItems, ℕ, ◌+◌, ◌-◌, ◌*◌, ◌/◌, leb, ltb, ◌==◌, ◌&&◌, ◌||◌, not, ℤ, pos, ◌-ℤ◌, String, str_eq,
  codes, Bool, true, Option, none, some, List, [], ◌∷◌, ◌++◌, map, length, take, drop, is_empty,
  if◌then◌else◌,
}
use eidetic_daemon.Engram.{Engram}
use eidetic_daemon.Store.Engine.{Engine}
use eidetic_daemon.Store.Read.{retrieve}
use eidetic_daemon.TextSearch.{Text, lower, member, same_text, stopwords}
use eidetic_daemon.Api.Sort.{insertion_sort}
use eidetic_daemon.Api.Http.{
  when_get, Request, Response, Clock, digest, message, respond, method_not_allowed,
}
use eidetic_daemon.Api.Engrams.{Handler, reply, call_store, server_error}

module _ {K : Type 0} where
  -- m[k]++
  unfoldable pub increment : (K → K → Bool) → K → List (K × ℕ) → List (K × ℕ)
  increment same k [] = (k, 1) ∷ []
  increment same k ((k', n) ∷ m) =
      let rest = increment same k m in if same k' k then (k', n + 1) ∷ m else (k', n) ∷ rest

  -- list[j-1].Count < list[j].Count
  abbrev pub counts_less : K × ℕ → K × ℕ → Bool
  counts_less before e = ltb before.1 e.1

  -- topN and topNInt, from the entries in the order of the iteration
  unfoldable pub top_n : List (K × ℕ) → ℕ → List (K × ℕ)
  top_n m n = take n (insertion_sort counts_less m)

-- a-z, A-Z or 0-9
unfoldable pub is_alnum : ℕ → Bool
is_alnum ch =
    (leb 0x61 ch && leb ch 0x7a) || (leb 0x41 ch && leb ch 0x5a) || (leb 0x30 ch && leb ch 0x39)

abbrev pub WordCount : Type 0
WordCount = List (Text × ℕ)

unfoldable pub count_word : Text → WordCount → WordCount
count_word cur m =
    if leb 4 (length cur) && not (member (map lower cur) stopwords)
    then increment same_text (map lower cur) m
    else m

unfoldable pub count_words : Text → Text → WordCount → WordCount
unfolding count_word
count_words cur [] m = count_word cur m
count_words cur (ch ∷ payload) m =
    let longer = count_words (cur ++ ch ∷ []) payload m in
    let next = count_words [] payload (count_word cur m) in if is_alnum ch then longer else next

-- 5 from the head, 10 from the middle, 5 from the tail
unfoldable pub sample_rows : List Engram → List Engram
sample_rows rows =
    if leb (length rows) 20
    then rows
    else take 5 rows ++ (take 10 (drop (length rows / 2 - 5) rows) ++ drop (length rows - 5) rows)

-- A window's name and its length in nanoseconds.
unfoldable pub window_of : Text → Option (Text × ℤ)
window_of name =
    if is_empty name || same_text name (codes "7d")
    then some (codes "7d", pos (7 * 24 * 3_600_000_000_000))
    else if same_text name (codes "24h")
    then some (name, pos (24 * 3_600_000_000_000))
    else if same_text name (codes "30d")
    then some (name, pos (30 * 24 * 3_600_000_000_000))
    else none

-- The zone, and the order of the iteration over a map, which is any order of its entries.
pub record Runtime : Type 0 where
  pub hour : ℤ → ℕ
  pub iterate_hours : List (ℕ × ℕ) → List (ℕ × ℕ)
  pub iterate_words : WordCount → WordCount
  pub same_hours : (m : List (ℕ × ℕ)) → SameItems (iterate_hours m) m
  pub same_words : (m : WordCount) → SameItems (iterate_words m) m

-- The counters after the loop over the rows.
pub record Tally : Type 0 where
  pub by_surface : List (String × ℕ)
  pub by_hour : List (ℕ × ℕ)
  pub word_count : WordCount

abbrev pub empty_tally : Tally
empty_tally = record { by_surface = []; by_hour = []; word_count = [] }

module _ (hour : ℤ → ℕ) where
  unfoldable pub tally_row : Engram → Tally → Tally
  unfolding count_words
  tally_row row t = record {
    by_surface = increment str_eq row.surface t.by_surface;
    by_hour = increment (λ a b. a == b) (hour row.ts) t.by_hour;
    word_count = count_words [] row.payload t.word_count;
  }

  unfoldable pub tally : List Engram → Tally → Tally
  unfolding tally_row
  tally [] t = t
  tally (row ∷ rows) t = tally rows (tally_row row t)

module _ (runtime : Runtime) where
  open runtime use {hour, iterate_hours, iterate_words}

  abbrev pub digest_of : Text → ℤ → List Engram → Response
  digest_of window since rows =
      let t = tally hour rows empty_tally in
      respond 200 (
        digest record {
          window = window;
          since = since;
          total_engrams = length rows;
          by_surface = t.by_surface;
          top_hours = top_n (iterate_hours t.by_hour) 5;
          top_terms = top_n (iterate_words t.word_count) 10;
          sample_engrams = sample_rows rows;
        })

  module _ (engine : Engine) (clock : Clock) where
    abbrev pub digest_window : Option (Text × ℤ) → Handler
    digest_window none = reply (respond 400 (message "window must be 24h | 7d | 30d"))
    digest_window (some (window, dur)) =
        call_store (retrieve engine "" (clock.start -ℤ dur) (pos 0) (pos 2000) true) server_error
          (digest_of window (clock.start -ℤ dur))

    unfoldable pub handle_digest : Request → Handler
    handle_digest r =
        when_get r.method (digest_window (window_of (r.query "window"))) (reply method_not_allowed)
