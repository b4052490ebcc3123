-- ===== src/Tests/Api.antt =====
-- The theorems on internal/api and internal/auth at small requests.
use eidetic_daemon.Prelude.{
  SameItems, count_p-append, ◌∙◌, ℕ, ◌+ℤ◌, ◌≤◌, ◌&&◌, pos, negsuc, arith, ◌++◌, ◌≡◌, refl, codes,
  true, false, none, some, List, [], ◌∷◌, length, if◌then◌else◌,
}
use eidetic_daemon.Engram.{Engram}
use eidetic_daemon.Store.Schema.{Db, empty_db}
use eidetic_daemon.Store.Read.{to_engram}
use eidetic_daemon.Store.Write.{to_row, validate_engram}
use eidetic_daemon.Store.Lookup.{quiet}
use eidetic_daemon.TextSearch.{same_text, lower}
use eidetic_daemon.Auth.{enabled, hex_encode, presented, strip_scheme, validate}
use eidetic_daemon.Auth.Accepts.{validate-hex_encode}
use eidetic_daemon.Api.Params.{
  parse_int, parse_uint, read_digits, non_negative, non_positive, trim_space, trim_left, trim_end,
  is_space,
}
use eidetic_daemon.Api.Http.{
  get, post, Request, Clock, Digest, respond, message, created, one_engram, digest, preflight,
}
use eidetic_daemon.Api.Latency.{new_latency_tracker}
use eidetic_daemon.Api.AskCache.{new_ask_cache}
use eidetic_daemon.Api.AskCache.Refines.{view}
use eidetic_daemon.Api.AskCache.Runs.{Call, to_get, to_put, run, run_kept, run-eq-run_kept}
use eidetic_daemon.Api.Engrams.{Json, default_ts, handle_engrams_post, handle_engrams_by_id}
use eidetic_daemon.Api.Engrams.Roundtrip.{handle_engrams_post-by_id}
use eidetic_daemon.Api.Effects.{Effect}
use eidetic_daemon.Api.Sort.Sorted.{First}
use eidetic_daemon.Api.Timeline.{is_later, timeline_get, timeline_response}
use eidetic_daemon.Api.Timeline.Merge.{NotAfter, oldest_of_each, timeline_get-First}
use eidetic_daemon.Api.Digest.{Runtime, counts_less, digest_window, empty_tally, tally}
use eidetic_daemon.Api.Digest.Summary.{AtLeast, total, summarised, digest_window-Summary}
use eidetic_daemon.Api.Routes.{Config, Server, dispatch, is_preflight, route, serve}
use eidetic_daemon.Api.Routes.Keeps.{seen, serve-Effect}
use eidetic_daemon.Api.Routes.Guard.{serve-gate}
use eidetic_daemon.Tests.Sqlite.{sqlite}
use eidetic_daemon.Tests.Fixtures.{note, reply, failing, after_calls}

abbrev json : Json
json = record {
  unmarshal_engram = λ body. ("", some note);
  unmarshal_engrams = λ body. ("", some (note ∷ reply ∷ []));
}

abbrev clock : Clock
clock = record { start = pos 500; stop = pos 510 }

-- Maps are iterated over from their end.
abbrev backwards : {A : Type 0} → List A → List A
backwards [] = []
backwards (x ∷ xs) = backwards xs ++ x ∷ []

backwards-SameItems : {A : Type 0} (xs : List A) → SameItems (backwards xs) xs
backwards-SameItems [] p = refl
backwards-SameItems (x ∷ xs) p =
    count_p-append p (backwards xs) (x ∷ []) ∙ ground (arith, backwards-SameItems xs p)

abbrev reversed : Runtime
reversed = record {
  hour = λ t. 0;
  iterate_hours = backwards;
  iterate_words = backwards;
  same_hours = backwards-SameItems;
  same_words = backwards-SameItems;
}

abbrev config : Config
config = record {
  engine = sqlite;
  json = json;
  surface_name = λ name. "cursor";
  runtime = reversed;
  auth_token = codes "5e";
  cors = true;
  metrics_configured = true;
  hooks_configured = false;
}

abbrev server : Server
server = record {
  session = failing;
  query_latency = new_latency_tracker (pos 0) 2;
  ask_cache = new_ask_cache 64 (pos 300);
}

abbrev batch : Request
batch = record {
  method = post;
  path = codes "/engrams/batch";
  query = λ key. [];
  surface = "";
  body = some (codes "[]");
  authorization = codes "bearer 5e";
}

abbrev fetch : Request
fetch = record batch { method = get; path = codes "/engrams/1"; body = none }

serve-Effect_example : Effect post failing (seen (serve config clock batch server))
serve-Effect_example = serve-Effect config clock batch server

token_is_set : enabled (codes "5e") ≡ true
unfolding enabled
token_is_set = refl

serve-gate_example : serve config clock batch server ≡ (
    if true && is_preflight post
    then (respond 204 preflight, server)
    else if same_text (codes "/engrams/batch") (codes "/healthz")
    then dispatch config clock (route (codes "/engrams/batch")) batch server
    else if same_text (presented (codes "bearer 5e")) (codes "5e")
    then dispatch config clock (route (codes "/engrams/batch")) batch server
    else (respond 401 (message "unauthorized"), server))
serve-gate_example = serve-gate config clock batch server token_is_set

-- The header of the request above presents the token.
presented_token : presented (codes "bearer 5e") ≡ codes "5e"
unfolding presented trim_space trim_left trim_end strip_scheme same_text lower is_space
presented_token = refl

one : parse_int (codes "1") ≡ (pos 1, true)
unfolding parse_int parse_uint read_digits non_negative
one = refl

-- A limit that does not fit is the largest one, whatever follows; one that is no number is 0.
clamped : parse_int (codes "-99999999999999999999x") ≡ (negsuc 9_223_372_036_854_775_807, false)
unfolding parse_int parse_uint read_digits non_positive
clamped = refl

not_a_number : parse_int (codes "12x") ≡ (pos 0, false)
unfolding parse_int parse_uint read_digits non_negative
not_a_number = refl

valid_note : validate_engram (default_ts (pos 500) note) ≡ none
unfolding validate_engram
valid_note = refl

handle_engrams_post-by_id_example :
    (db' : Db) × (handle_engrams_post sqlite json clock batch (quiet empty_db)
      ≡ (respond 201 (created (pos 1)), quiet db'))
    × (handle_engrams_by_id (codes "1") fetch (quiet db') ≡ (
      respond 200 (one_engram (to_engram (to_row (pos 1) (default_ts (pos 500) note)))),
      quiet db',
    ))
unfolding sqlite
handle_engrams_post-by_id_example =
    handle_engrams_post-by_id sqlite json clock empty_db batch fetch (codes "[]") "" note
      (codes "1") refl refl refl valid_note one refl

validate-hex_encode_example :
    validate (hex_encode (94 ∷ [])) (codes "BeArEr " ++ hex_encode (94 ∷ [])) ≡ none
unfolding lower
validate-hex_encode_example =
    validate-hex_encode (94 ∷ []) (codes "BeArEr ") (omega arith, tt) refl refl

timeline_get-First_example :
    (rows : List Engram) × (timeline_get sqlite
        (λ name. "cursor")
        (pos 0)
        (pos 0)
        1
        (codes "cursor" ∷ [])
        (quiet after_calls)
      ≡ (timeline_response (codes "cursor" ∷ []) rows, quiet after_calls))
    × First is_later NotAfter 1
        (oldest_of_each sqlite
          (λ name. "cursor")
          (pos 0)
          (pos 0)
          1
          after_calls
          (codes "cursor" ∷ []))
        rows
timeline_get-First_example =
    timeline_get-First sqlite (λ name. "cursor") (pos 0) (pos 0) 1 after_calls (codes "cursor") []

digest_window-Summary_example :
    (d : Digest) × (digest_window reversed sqlite clock
        (some (codes "24h", pos 400))
        (quiet after_calls)
      ≡ (respond 200 (digest d), quiet after_calls))
    × (d.total_engrams
        ≡ length (summarised reversed sqlite clock (codes "24h") (pos 400) after_calls))
    × (d.total_engrams ≤ 500)
    × (total d.by_surface ≡ d.total_engrams)
    × First counts_less AtLeast 10
        (tally reversed.hour
          (summarised reversed sqlite clock (codes "24h") (pos 400) after_calls)
          empty_tally).word_count
        d.top_terms
    × First counts_less AtLeast 5
        (tally reversed.hour
          (summarised reversed sqlite clock (codes "24h") (pos 400) after_calls)
          empty_tally).by_hour
        d.top_hours
    × (length d.sample_engrams ≤ 20)
digest_window-Summary_example =
    digest_window-Summary reversed sqlite clock (codes "24h") (pos 400) after_calls

-- Of two answers the cache of one keeps the second, until its time is over.
abbrev asked : List (Call ℕ)
asked =
    to_put (pos 1) (codes "a") 7
    ∷ to_get (pos 2) (codes "a")
    ∷ to_put (pos 3) (codes "b") 8
    ∷ to_get (pos 4) (codes "a")
    ∷ to_get (pos 13) (codes "b")
    ∷ to_get (pos 14) (codes "b")
    ∷ []

run-eq-run_kept_example :
    ((run asked (new_ask_cache 1 (pos 10))).0 ≡ (run_kept 1 (pos 10) asked []).0)
    × (view (run asked (new_ask_cache 1 (pos 10))).1 ≡ (run_kept 1 (pos 10) asked []).1)
    × (length (run asked (new_ask_cache 1 (pos 10))).1.order ≤ 1)
run-eq-run_kept_example = run-eq-run_kept 1 (pos 10) asked

asked_answers : (run_kept 1 (pos 10) asked []).0 ≡ some 7 ∷ none ∷ some 8 ∷ none ∷ []
unfolding run_kept same_text ◌+ℤ◌
asked_answers = refl
