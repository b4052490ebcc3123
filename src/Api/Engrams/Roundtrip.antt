-- ===== src/Api/Engrams/Roundtrip.antt =====
-- An engram that is posted can be fetched.
use eidetic_daemon.Prelude.{
  ◌+◌, ltb, ℤ, pos, ltb_ℤ, eqb_ℤ, ◌<ℤ◌, arith, ◌≡◌, refl, ◌∙◌, ap, ap₂, String, true, false, none,
  some, length,
}
use eidetic_daemon.Engram.{Bytes, Engram}
use eidetic_daemon.Store.Schema.{Db}
use eidetic_daemon.Store.Engine.{Engine}
use eidetic_daemon.Store.Session.{ok}
use eidetic_daemon.Store.Read.{get_by_id, to_engram}
use eidetic_daemon.Store.Write.{max_payload_bytes, to_row, validate_engram}
use eidetic_daemon.Store.Lookup.{quiet, get_by_id-found, get_by_id-insert}
use eidetic_daemon.TextSearch.{Text}
use eidetic_daemon.Api.Params.{parse_int}
use eidetic_daemon.Api.Http.{Request, Clock, get, respond, created, one_engram}
use eidetic_daemon.Api.Engrams.{
  Json, answer_of, lookup_error, call_store, default_ts, insert_decoded, read_engram,
  handle_engrams_post, handle_engrams_by_id, by_id_method, handle_engram_get,
}

fetched :
    (id : ℤ) (db : Db) (e : Engram)
    → (get_by_id id (quiet db)).0 ≡ ok e
    → handle_engram_get id (quiet db) ≡ (respond 200 (one_engram e), quiet db)
unfolding handle_engram_get call_store
fetched id db e here =
    let same : (get_by_id id (quiet db)).1 ≡ quiet db = ap (λ x. x.1) (get_by_id-found id db) in
    ap₂ (λ r s. answer_of lookup_error (λ e'. respond 200 (one_engram e')) (r, s)) here same

-- GET on an id that is found.
get_found :
    (id_text : Text) (id : ℤ) (r : Request) (db : Db) (e : Engram)
    → parse_int id_text ≡ (id, true)
    → pos 0 <ℤ id
    → r.method ≡ get
    → (get_by_id id (quiet db)).0 ≡ ok e
    → handle_engrams_by_id id_text r (quiet db) ≡ (respond 200 (one_engram e), quiet db)
unfolding handle_engrams_by_id by_id_method handle_engram_get call_store
get_found id_text id r db e parsed positive is_get here =
    let number : (parse_int id_text).0 ≡ id = ap (λ x. x.0) parsed in
    let large : ltb_ℤ (pos 0) (parse_int id_text).0 ≡ true =
      ap (ltb_ℤ (pos 0)) number ∙ ground arith in
    let valid : (parse_int id_text).1 ≡ true = ap (λ x. x.1) parsed in
    rw (valid, large, is_get, handle_engrams_by_id, by_id_method)
      (ap (λ n. handle_engram_get n (quiet db)) number ∙ fetched id db e here)

module _ (engine : Engine) (json : Json) (clock : Clock) (db : Db) where
  -- When no statement fails: a POST whose body decodes to an engram that is valid, with the time of its
  -- arrival if it has none, is answered with 201 and an id; a GET for that id is then answered with the
  -- engram's surface, time, payload and meta.
  pub handle_engrams_post-by_id :
      (r r' : Request) (body : Bytes) (problem : String) (e : Engram) (id_text : Text)
      → r.body ≡ some body
      → ltb (max_payload_bytes + 4096) (length body) ≡ false
      → json.unmarshal_engram body ≡ (problem, some e)
      → validate_engram (default_ts clock.start e) ≡ none
      → parse_int id_text ≡ (engine.next_rowid db.engrams, true)
      → r'.method ≡ get
      → (db' : Db) × (handle_engrams_post engine json clock r (quiet db)
          ≡ (respond 201 (created (engine.next_rowid db.engrams)), quiet db'))
        × (handle_engrams_by_id id_text r' (quiet db') ≡ (
          respond 200 (
              one_engram
                (to_engram (to_row (engine.next_rowid db.engrams) (default_ts clock.start e)))),
          quiet db',
        ))
  unfolding handle_engrams_post read_engram insert_decoded call_store
  handle_engrams_post-by_id r r' body problem e id_text has_body fits decoded valid parsed is_get =
      let id = engine.next_rowid db.engrams in
      let (db', inserted, answers) = get_by_id-insert engine (default_ts clock.start e) db valid in
      let self : eqb_ℤ id id ≡ true = ground arith in
      (
        db',
        rw
            (
              has_body, fits, decoded, inserted, handle_engrams_post, read_engram, insert_decoded,
              call_store,
            )
            refl,
        get_found id_text id r' db' _ parsed (engine.next_rowid_pos db.engrams) is_get
            (answers id ∙ rw self refl),
      )
