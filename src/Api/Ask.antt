-- ===== src/Api/Ask.antt =====
-- `handleAsk` of internal/api/routes.go: a question is answered with the engrams that match its
-- keywords, or from the cache.
use eidetic_daemon.Prelude.{
  ℕ, ◌+◌, ◌/◌, ◌%◌, ltb, ℤ, pos, pos_part, ltb_ℤ, String, codes, true, false, not, Option, none,
  some, List, [], ◌∷◌, ◌++◌, is_empty, if◌then◌else◌,
}
use eidetic_daemon.Engram.{Engram}
use eidetic_daemon.Store.Engine.{Engine}
use eidetic_daemon.Store.Session.{Result, ok, err, Session, M}
use eidetic_daemon.Store.Search.{search}
use eidetic_daemon.TextSearch.{Text, question_to_fts}
use eidetic_daemon.Api.Params.{int_or_zero, trim_space}
use eidetic_daemon.Api.Http.{
  when_get, Request, Response, Clock, AskAnswer, message, answer, respond, method_not_allowed,
}
use eidetic_daemon.Api.Engrams.{server_error}
use eidetic_daemon.Api.AskCache
use eidetic_daemon.Api.AskCache.{AskCache}

-- The default 10, the limit, or the cap 30.
abbrev pub ask_limit : ℤ → ℕ
ask_limit limit =
    if not (ltb_ℤ (pos 0) limit) then 10 else if ltb_ℤ (pos 30) limit then 30 else pos_part limit

-- strconv.Itoa for a number of at most two digits
abbrev pub itoa : ℕ → Text
itoa n = if ltb n 10 then (0x30 + n) ∷ [] else (0x30 + n / 10) ∷ (0x30 + n % 10) ∷ []

unfoldable pub cache_key : Text → String → ℕ → Text
cache_key question surface limit = question ++ 0 ∷ (codes surface ++ 0 ∷ itoa limit)

abbrev pub ask_answer : Text → List Engram → AskAnswer
ask_answer question rows = record {
  question = question;
  fts_query = question_to_fts question;
  any_match = not (is_empty rows);
  engrams = rows;
}

abbrev pub question_required : Response
question_required = respond 400 (message "question required")

module _ (engine : Engine) where
  -- The search for the keywords and, if it fails, the one for the question as it is.
  abbrev pub or_raw :
      Text → String → ℕ → Result (List Engram) × Session → Result (List Engram) × Session
  or_raw question surface limit (ok rows, s) = (ok rows, s)
  or_raw question surface limit (err _, s) = search engine question surface (pos limit) s

  unfoldable pub search_question : Text → String → ℕ → M (List Engram)
  search_question question surface limit s =
      or_raw question surface limit (search engine (question_to_fts question) surface (pos limit) s)

  module _ (clock : Clock) where
    abbrev pub store_answer :
        Text
        → Text
        → Result (List Engram) × Session
        → AskCache AskAnswer
        → Response × Session × AskCache AskAnswer
    store_answer key question (err e, s) cache = (server_error e, s, cache)
    store_answer key question (ok rows, s) cache = (
      respond 200 (answer false (ask_answer question rows)),
      s,
      AskCache.put clock.stop key (ask_answer question rows) cache,
    )

    abbrev pub from_cache :
        Text
        → String
        → ℕ
        → Option AskAnswer × AskCache AskAnswer
        → Session
        → Response × Session × AskCache AskAnswer
    from_cache question surface limit (some cached, cache) s =
        (respond 200 (answer true cached), s, cache)
    from_cache question surface limit (none, cache) s =
        store_answer (cache_key question surface limit) question
          (search_question question surface limit s) cache

    unfoldable pub ask :
        Text → String → ℕ → AskCache AskAnswer → Session → Response × Session × AskCache AskAnswer
    ask question surface limit cache s =
        from_cache question surface limit
          (AskCache.get clock.start (cache_key question surface limit) cache) s

    unfoldable pub handle_ask :
        Request → AskCache AskAnswer → Session → Response × Session × AskCache AskAnswer
    handle_ask r cache s =
        when_get r.method
          (if is_empty (trim_space (r.query "question"))
            then (question_required, s, cache)
            else ask (trim_space (r.query "question")) r.surface
                (ask_limit (int_or_zero (r.query "limit"))) cache s)
          ((method_not_allowed, s, cache))
