-- ===== src/Api/Effects.antt =====
-- What the handlers leave in the database: nothing is changed, or a POST or DELETE has succeeded.
use eidetic_daemon.Prelude.{
  ℕ, ◌<◌, ℤ, ◌≡◌, refl, ◌∙◌, ap, Bool, true, false, Option, none, some, List, [], ◌∷◌, is_empty,
  if◌then◌else◌, String,
}
use eidetic_daemon.Engram.{Bytes}
use eidetic_daemon.Store.Engine.{Engine}
use eidetic_daemon.Store.Session.{Error, Result, ok, err, Session, M}
use eidetic_daemon.Store.Consistency.{IsConsistent}
use eidetic_daemon.Store.Session.Keeps.{Keeps}
use eidetic_daemon.Store.Search.{search}
use eidetic_daemon.Store.Read.{count, count_by_surface}
use eidetic_daemon.Store.Search.Sound.{search-db}
use eidetic_daemon.Store.Unchanged.{
  Reads, Clean, unchanged, succeeded, bind-Reads, count-Reads, count_by_surface-Reads,
  count_engrams-Reads, retrieve-Reads, recent-Reads,
}
use eidetic_daemon.TextSearch.{Text}
use eidetic_daemon.Api.Http.{
  Method, when_get, get, post, delete, options, other_method, Request, Response, Clock,
}
use eidetic_daemon.Api.Engrams.{Handler, reply, call_store, answer_of, handle_engrams_count}
use eidetic_daemon.Api.Queries.{
  handle_healthz, handle_surfaces, handle_search, handle_recent, handle_hooks,
}
use eidetic_daemon.Api.Timeline.{handle_timeline, timeline_get, fetch_all}
use eidetic_daemon.Api.Digest.{Runtime, handle_digest, digest_window}
use eidetic_daemon.Api.Metrics.{handle_metrics, provide, optional, as_option}

abbrev pub writes : Method → Bool
writes post = true
writes delete = true
writes _ = false

-- After a request with the method `m` in the session `s`.
pub data Effect (m : Method) (s : Session) (r : Response × Session) : Type 0 where
  untouched : r.1.db ≡ s.db → Effect m s r
  written :
      writes m ≡ true → r.0.status < 400 → (IsConsistent s.db → IsConsistent r.1.db) → Effect m s r

-- The handler leaves the database as it was.
pub record Reading (h : Handler) : Type 0 where
  pub same : (s : Session) → (h s).1.db ≡ s.db

module _ {A : Type 0} (on_err : Error → Response) (on_ok : A → Response) where
  answer_of-session : (r : Result A) (s : Session) → (answer_of on_err on_ok (r, s)).1 ≡ s
  answer_of-session (ok a) s = refl
  answer_of-session (err e) s = refl

  pub call-Reading : (m : M A) → Reads m → Reading (call_store m on_err on_ok)
  unfolding call_store
  call-Reading m reads = record {
    same = λ s. ap (λ t. t.db) (answer_of-session (m s).0 (m s).1) ∙ reads.same s;
  }

  answer_of-Effect :
      (me : Method) (s : Session) (r : Result A) (t : Session)
      → Clean s (r, t)
      → writes me ≡ true
      → ((a : A) → (on_ok a).status < 400)
      → (IsConsistent s.db → IsConsistent t.db)
      → Effect me s (answer_of on_err on_ok (r, t))
  answer_of-Effect me s (ok a) t c w k keeps = written w (k a) keeps
  answer_of-Effect me s (err e) t (unchanged same) w k keeps = untouched same
  answer_of-Effect me s (err e) t (succeeded a h) w k keeps = cc

  -- A writing call that is clean and keeps the tables consistent.
  pub call-Effect :
      (me : Method) (m : M A) (s : Session)
      → Clean s (m s)
      → Keeps IsConsistent m
      → writes me ≡ true
      → ((a : A) → (on_ok a).status < 400)
      → Effect me s (call_store m on_err on_ok s)
  unfolding call_store
  call-Effect me m s c keeps w k = answer_of-Effect me s (m s).0 (m s).1 c w k (keeps.keeps s)

pub reply-Reading : (response : Response) → Reading (reply response)
reply-Reading response = record { same = λ s. refl }

pub if-Reading : (b : Bool) (h k : Handler) → Reading h → Reading k → Reading (if b then h else k)
if-Reading true h k rh rk = rh
if-Reading false h k rh rk = rk

-- A handler that is for GET only.
pub get-Reading :
    (m : Method) (h : Handler) (response : Response)
    → Reading h
    → Reading (when_get m h (reply response))
get-Reading get h response rh = rh
get-Reading post h response rh = reply-Reading response
get-Reading delete h response rh = reply-Reading response
get-Reading options h response rh = reply-Reading response
get-Reading other_method h response rh = reply-Reading response

pub handle_healthz-Reading : (r : Request) → Reading (handle_healthz r)
unfolding handle_healthz
handle_healthz-Reading r = get-Reading r.method _ _ (reply-Reading _)

pub handle_surfaces-Reading : (r : Request) → Reading (handle_surfaces r)
unfolding handle_surfaces
handle_surfaces-Reading r = get-Reading r.method _ _ (call-Reading _ _ _ count_by_surface-Reads)

pub handle_hooks-Reading : (configured : Bool) (r : Request) → Reading (handle_hooks configured r)
unfolding handle_hooks
handle_hooks-Reading configured r =
    get-Reading r.method _ _ (if-Reading configured _ _ (reply-Reading _) (reply-Reading _))

pub handle_engrams_count-Reading : (r : Request) → Reading (handle_engrams_count r)
unfolding handle_engrams_count
handle_engrams_count-Reading r =
    get-Reading r.method _ _ (call-Reading _ _ _ (count_engrams-Reads _ _))

as_option-db : {A : Type 0} (r : Result A) (s : Session) → (as_option (r, s)).1.db ≡ s.db
as_option-db (ok a) s = refl
as_option-db (err e) s = refl

optional-Reads : {A : Type 0} (m : M A) → Reads m → Reads (optional m)
unfolding optional
optional-Reads m reads = record { same = λ s. as_option-db (m s).0 (m s).1 ∙ reads.same s }

provide-Reads : (cache : ℕ × ℕ × ℕ) → Reads (provide cache)
unfolding provide
provide-Reads cache = bind-Reads _ _ (optional-Reads count count-Reads) λ total.
    bind-Reads _ _ (optional-Reads count_by_surface count_by_surface-Reads)
      λ by. record { same = λ s. refl }

pub handle_metrics-Reading :
    (cache : ℕ × ℕ × ℕ) (configured : Bool) (r : Request)
    → Reading (handle_metrics cache configured r)
unfolding handle_metrics
handle_metrics-Reading cache configured r =
    get-Reading r.method _ _
      (if-Reading configured _ _ (call-Reading _ _ _ (provide-Reads cache)) (reply-Reading _))

module _ (engine : Engine) where
  search-Reads : (q : Bytes) (surface : String) (limit : ℤ) → Reads (search engine q surface limit)
  search-Reads q surface limit = record { same = search-db engine surface q limit }

  pub handle_search-Reading : (r : Request) → Reading (handle_search engine r)
  unfolding handle_search
  handle_search-Reading r = get-Reading r.method _ _ (
      if-Reading (is_empty (r.query "q")) _ _ (reply-Reading _)
        (call-Reading _ _ _ (search-Reads (r.query "q") r.surface _)))

  pub handle_recent-Reading : (r : Request) → Reading (handle_recent engine r)
  unfolding handle_recent
  handle_recent-Reading r =
      get-Reading r.method _ _ (call-Reading _ _ _ (recent-Reads engine _ _ _))

  module _ (name : Text → String) where
    fetch_all-Reads :
        (since before : ℤ) (limit : ℕ) (surfaces : List Text)
        → Reads (fetch_all engine name since before limit surfaces)
    unfolding fetch_all
    fetch_all-Reads since before limit [] = record { same = λ s. refl }
    fetch_all-Reads since before limit (t ∷ surfaces) =
        bind-Reads _ _ (retrieve-Reads engine _ _ _ _ _) λ rows.
          bind-Reads _ _ (fetch_all-Reads since before limit surfaces)
            λ rest. record { same = λ s. refl }

    timeline_get-Reading :
        (since before : ℤ) (limit : ℕ) (surfaces : List Text)
        → Reading (timeline_get engine name since before limit surfaces)
    unfolding timeline_get
    timeline_get-Reading since before limit [] =
        call-Reading _ _ _ (retrieve-Reads engine _ _ _ _ _)
    timeline_get-Reading since before limit (t ∷ surfaces) =
        call-Reading _ _ _ (fetch_all-Reads since before limit (t ∷ surfaces))

    pub handle_timeline-Reading : (r : Request) → Reading (handle_timeline engine name r)
    unfolding handle_timeline
    handle_timeline-Reading r = get-Reading r.method _ _ (timeline_get-Reading _ _ _ _)

  module _ (runtime : Runtime) (clock : Clock) where
    digest_window-Reading : (w : Option (Text × ℤ)) → Reading (digest_window runtime engine clock w)
    digest_window-Reading none = reply-Reading _
    digest_window-Reading (some (window, dur)) =
        call-Reading _ _ _ (retrieve-Reads engine _ _ _ _ _)

    pub handle_digest-Reading : (r : Request) → Reading (handle_digest runtime engine clock r)
    unfolding handle_digest
    handle_digest-Reading r = get-Reading r.method _ _ (digest_window-Reading _)
