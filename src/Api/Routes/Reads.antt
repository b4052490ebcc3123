-- ===== src/Api/Routes/Reads.antt =====
-- The export and the answering of questions leave the database as it was.
use eidetic_daemon.Prelude.{
  ℕ, zero, suc, ◌+◌, ℤ, pos, ltb, ◌≡◌, refl, ◌∙◌, subst, inl, inr, Bool, true, false, Option, none,
  some, Option-cases, List, [], ◌∷◌, is_empty, length, last?, if◌then◌else◌, String,
}
use eidetic_daemon.Engram.{Engram}
use eidetic_daemon.Store.Schema.{Db}
use eidetic_daemon.Store.Engine.{Engine}
use eidetic_daemon.Store.Session.{Result, ok, err, Session}
use eidetic_daemon.Store.Read.{retrieve_after}
use eidetic_daemon.Store.Unchanged.{Reads, retrieve_after-Reads}
use eidetic_daemon.TextSearch.{Text, question_to_fts}
use eidetic_daemon.Api.Params.{int_or_zero, trim_space}
use eidetic_daemon.Api.Http.{
  Response, Method, get, post, delete, options, other_method, Request, Clock, AskAnswer, when_get,
  method_not_allowed,
}
use eidetic_daemon.Api.Export.{
  Answer, Line, export_complete, prepend, after_rows, after_page, export_loop, handle_export,
}
use eidetic_daemon.Store.Search.{search}
use eidetic_daemon.Store.Search.Sound.{search-db}
use eidetic_daemon.Api.Ask.{
  question_required, ask_limit, handle_ask, ask, search_question, or_raw, store_answer, from_cache,
  cache_key,
}
use eidetic_daemon.Api.AskCache
use eidetic_daemon.Api.AskCache.{AskCache}
use eidetic_daemon.Api.Effects.{Reading}
use eidetic_daemon.Api.Routes.{Config, export_stream, streamed}

module _ {R : Type 0} (P : R → Type 0) where
  -- A test on the method, or any test, chooses between two answers that satisfy a predicate.
  when_get-holds : (m : Method) (x y : R) → P x → P y → P (when_get m x y)
  when_get-holds get x y px py = px
  when_get-holds post x y px py = py
  when_get-holds delete x y px py = py
  when_get-holds options x y px py = py
  when_get-holds other_method x y px py = py

  if-holds : (b : Bool) (x y : R) → P x → P y → P (if b then x else y)
  if-holds true x y px py = px
  if-holds false x y px py = py

-- The session of an export after any number of pages.
abbrev AnswerSame : Db → Answer → Type 0
AnswerSame db none = Unit
AnswerSame db (some (lines, s)) = s.db ≡ db

module _ (engine : Engine) (page_size : ℕ) (surface : String) (before : ℤ) where
  prepend-same :
      (db : Db) (lines : List Line) (a : Answer) → AnswerSame db a → AnswerSame db (prepend lines a)
  prepend-same db lines none h = tt
  prepend-same db lines (some (more, s)) h = h

  if-same :
      (db : Db) (b : Bool) (x y : Answer)
      → AnswerSame db x
      → AnswerSame db y
      → AnswerSame db (if b then x else y)
  if-same db true x y hx hy = hx
  if-same db false x y hx hy = hy

  after_page-same :
      (db : Db) (next : ℤ → ℤ → ℕ → Session → Answer) (total : ℕ) (rows : Result (List Engram))
      (s : Session)
      → s.db ≡ db
      → ((ts id : ℤ) (total : ℕ) → AnswerSame db (next ts id total s))
      → AnswerSame db (after_page engine page_size surface before next total rows s)
  unfolding after_page after_rows
  after_page-same db next total (err e) s h k = h
  after_page-same db next total (ok rows) s h k = elim (Option-cases (last? rows)) [
    | inl empty ↦ rw (empty, after_rows) h
    | inr (last, e) ↦
        rw (e, after_rows)
          (prepend-same db _ _ (
            if-same db (ltb (length rows) page_size)
              (some (export_complete (total + length rows) ∷ [], s)) _ h
              (k last.ts last.id (total + length rows))))
  ]

  export_loop-same :
      (fuel : ℕ) (ts id : ℤ) (total : ℕ) (s : Session)
      → AnswerSame s.db (export_loop engine page_size surface before fuel ts id total s)
  unfolding export_loop
  export_loop-same zero ts id total s = tt
  export_loop-same (suc fuel) ts id total s =
      let (rows, s') = retrieve_after engine surface ts id before (pos page_size) s in
      let same = (retrieve_after-Reads engine surface ts id before (pos page_size)).same s in
      after_page-same s.db (export_loop engine page_size surface before fuel) total rows s' same
        (λ ts' id' total'.
          subst
            (λ db.
              AnswerSame db (export_loop engine page_size surface before fuel ts' id' total' s'))
            same (export_loop-same fuel ts' id' total' s'))

streamed-same : (s : Session) (a : Answer) → AnswerSame s.db a → (streamed s a).1.db ≡ s.db
streamed-same s none h = refl
streamed-same s (some (lines, s')) h = h

pub export_stream-Reading :
    (config : Config) (clock : Clock) (r : Request) → Reading (export_stream config clock r)
unfolding export_stream handle_export
export_stream-Reading config clock r = record {
  same = λ s.
      when_get-holds (λ (x : Response × Session). x.1.db ≡ s.db) r.method _ (method_not_allowed, s)
        (streamed-same s _ (export_loop-same config.engine 1000 r.surface _ _ _ _ _ s)) refl;
}

module _ (engine : Engine) (clock : Clock) where
  search_question-Reads :
      (question : Text) (surface : String) (limit : ℕ)
      → Reads (search_question engine question surface limit)
  unfolding search_question
  search_question-Reads question surface limit = record {
    same = λ s.
        or_raw-db (search engine (question_to_fts question) surface (pos limit) s).0 _
        ∙ search-db engine surface (question_to_fts question) (pos limit) s;
  }
    where
      or_raw-db :
          (r : Result (List Engram)) (t : Session)
          → (or_raw engine question surface limit (r, t)).1.db ≡ t.db
      or_raw-db (ok rows) t = refl
      or_raw-db (err e) t = search-db engine surface question (pos limit) t

  store_answer-db :
      (key question : Text) (r : Result (List Engram)) (s : Session) (cache : AskCache AskAnswer)
      → (store_answer engine clock key question (r, s) cache).1.db ≡ s.db
  store_answer-db key question (ok rows) s cache = refl
  store_answer-db key question (err e) s cache = refl

  from_cache-db :
      (question : Text) (surface : String) (limit : ℕ) (hit : Option AskAnswer)
      (cache : AskCache AskAnswer) (s : Session)
      → (from_cache engine clock question surface limit (hit, cache) s).1.db ≡ s.db
  from_cache-db question surface limit (some cached) cache s = refl
  from_cache-db question surface limit none cache s =
      let r = search_question engine question surface limit s in
      store_answer-db _ question r.0 r.1 cache
      ∙ (search_question-Reads question surface limit).same s

  pub handle_ask-db :
      (r : Request) (cache : AskCache AskAnswer) (s : Session)
      → (handle_ask engine clock r cache s).1.db ≡ s.db
  unfolding handle_ask ask
  handle_ask-db r cache s =
      let question = trim_space (r.query "question") in
      let hit =
        AskCache.get clock.start
          (cache_key question r.surface (ask_limit (int_or_zero (r.query "limit")))) cache in
      when_get-holds (λ (x : Response × Session × AskCache AskAnswer). x.1.db ≡ s.db) r.method _
        (method_not_allowed, s, cache)
        (if-holds (λ (x : Response × Session × AskCache AskAnswer). x.1.db ≡ s.db)
          (is_empty question) (question_required, s, cache) _ refl
          (from_cache-db question r.surface (ask_limit (int_or_zero (r.query "limit"))) hit.0 hit.1
            s))
        refl
