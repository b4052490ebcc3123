-- ===== src/Api/Engrams.antt =====
-- The handlers of internal/api/routes.go for /engrams and the paths below it. A handler acts on the
-- session of the store and, unless it streams, writes one answer.
pub mod Roundtrip
use eidetic_daemon.Prelude.{
  ℕ, ◌+◌, ◌*◌, ltb, ℤ, pos, ltb_ℤ, eqb_ℤ, String, str_eq, codes, not, ◌||◌, Option, none, some,
  List, [], ◌∷◌, map, length, if◌then◌else◌,
}
use eidetic_daemon.Engram.{Bytes, Engram}
use eidetic_daemon.Store.Engine.{Engine}
use eidetic_daemon.Store.Session.{Error, invalid_engram, not_found, Result, ok, err, Session, M}
use eidetic_daemon.Store.Read.{count_engrams, get_by_id, retrieve}
use eidetic_daemon.Store.Write.{delete_by_id, insert, insert_batch, max_payload_bytes, purge}
use eidetic_daemon.TextSearch.{Text, same_text}
use eidetic_daemon.Api.Params.{int_or_zero, parse_int}
use eidetic_daemon.Api.Http.{
  when_get, when_post, Method, get, post, delete, Request, Clock, Response, message, failure,
  engram_list, one_engram, deleted, inserted, created, count_is, respond, method_not_allowed,
}

abbrev pub Handler : Type 0
Handler = Session → Response × Session

abbrev pub reply : Response → Handler
reply response s = (response, s)

module _ {A : Type 0} where
  abbrev pub answer_of :
      (Error → Response) → (A → Response) → Result A × Session → Response × Session
  answer_of on_err on_ok (ok a, s) = (on_ok a, s)
  answer_of on_err on_ok (err e, s) = (on_err e, s)

  -- A call of the store, and an answer for either outcome.
  unfoldable pub call_store : M A → (Error → Response) → (A → Response) → Handler
  call_store m on_err on_ok s = answer_of on_err on_ok (m s)

abbrev pub server_error : Error → Response
server_error e = respond 500 (failure e)

-- 400 for ErrInvalidEngram
abbrev pub insert_error : Error → Response
insert_error (invalid_engram v) = respond 400 (failure (invalid_engram v))
insert_error e = respond 500 (failure e)

-- 404 for ErrNotFound
abbrev pub lookup_error : Error → Response
lookup_error not_found = respond 404 (failure not_found)
lookup_error e = respond 500 (failure e)

-- http.MaxBytesReader and io.ReadAll
abbrev pub read_all : ℕ → Option Bytes → Option Bytes
read_all cap none = none
read_all cap (some body) = if ltb cap (length body) then none else some body

abbrev pub default_ts : ℤ → Engram → Engram
default_ts now e = if eqb_ℤ e.ts (pos 0) then record e { ts = now } else e

-- What encoding/json decodes of a body, or the message of its error.
pub record Json : Type 0 where
  pub unmarshal_engram : Bytes → String × Option Engram
  pub unmarshal_engrams : Bytes → String × Option (List Engram)

module _ (engine : Engine) where
  unfoldable pub handle_engrams_get : Request → Handler
  handle_engrams_get r =
      call_store
        (retrieve engine r.surface (int_or_zero (r.query "since")) (int_or_zero (r.query "before"))
          (int_or_zero (r.query "limit")) (same_text (r.query "order") (codes "asc")))
        server_error (λ rows. respond 200 (engram_list rows))

unfoldable pub handle_engrams_delete : Request → Handler
handle_engrams_delete r =
    if str_eq r.surface ""
    then reply (respond 400 (message "surface required"))
    else call_store (purge r.surface (int_or_zero (r.query "before"))) server_error
        (λ n. respond 200 (deleted n))

unfoldable pub handle_engrams_count : Request → Handler
handle_engrams_count r =
    when_get r.method
      (call_store (count_engrams r.surface (int_or_zero (r.query "since"))) server_error
        (λ n. respond 200 (count_is n)))
      (reply method_not_allowed)

module _ (id : ℤ) where
  unfoldable pub handle_engram_get : Handler
  handle_engram_get = call_store (get_by_id id) lookup_error (λ e. respond 200 (one_engram e))

  unfoldable pub handle_engram_delete : Handler
  handle_engram_delete = call_store (delete_by_id id) lookup_error (λ _. respond 200 (deleted 1))

unfoldable pub by_id_method : ℤ → Method → Handler
by_id_method id get = handle_engram_get id
by_id_method id delete = handle_engram_delete id
by_id_method id _ = reply method_not_allowed

unfoldable pub handle_engrams_by_id : Text → Request → Handler
handle_engrams_by_id raw_id r =
    let (id, valid) = parse_int raw_id in
    if not valid || not (ltb_ℤ (pos 0) id)
    then reply (respond 400 (message "id must be a positive integer"))
    else by_id_method id r.method

module _ (engine : Engine) (json : Json) (clock : Clock) where
  open json use {unmarshal_engram, unmarshal_engrams}

  unfoldable pub insert_decoded : String × Option Engram → Handler
  insert_decoded (problem, none) = reply (respond 400 (message problem))
  insert_decoded (_, some e) =
      call_store (insert engine (default_ts clock.start e)) insert_error
        (λ id. respond 201 (created id))

  unfoldable pub read_engram : Option Bytes → Handler
  read_engram none = reply (respond 400 (message "request body too large or unreadable"))
  read_engram (some body) = insert_decoded (unmarshal_engram body)

  unfoldable pub handle_engrams_post : Request → Handler
  handle_engrams_post r = read_engram (read_all (max_payload_bytes + 4096) r.body)

  unfoldable pub insert_items : String × Option (List Engram) → Handler
  insert_items (problem, none) = reply (respond 400 (message problem))
  insert_items (_, some []) = reply (respond 201 (inserted 0))
  insert_items (_, some (e ∷ es)) =
      call_store (insert_batch engine (map (default_ts clock.start) (e ∷ es))) insert_error
        (λ _. respond 201 (inserted (length (e ∷ es))))

  unfoldable pub read_items : Option Bytes → Handler
  read_items none = reply (respond 400 (message "request body too large or unreadable"))
  read_items (some body) = insert_items (unmarshal_engrams body)

  -- 32 << 20
  unfoldable pub handle_engrams_batch : Request → Handler
  handle_engrams_batch r =
      when_post r.method (read_items (read_all (32 * 1_048_576) r.body)) (reply method_not_allowed)

  unfoldable pub engrams_method : Method → Request → Handler
  engrams_method get r = handle_engrams_get engine r
  engrams_method post r = handle_engrams_post r
  engrams_method delete r = handle_engrams_delete r
  engrams_method _ r = reply method_not_allowed

  unfoldable pub handle_engrams : Request → Handler
  handle_engrams r = engrams_method r.method r
