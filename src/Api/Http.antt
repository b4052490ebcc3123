-- ===== src/Api/Http.antt =====
-- Requests and answers of the HTTP interface, as its handlers see them: what net/http parses of a
-- request is taken as parsed, and an answer is its status and the value that is encoded as its body.
use eidetic_daemon.Prelude.{ℕ, ℤ, String, Bool, Option, List}
use eidetic_daemon.Engram.{Bytes, Engram}
use eidetic_daemon.Store.Schema.{Counts}
use eidetic_daemon.Store.Session.{Error}
use eidetic_daemon.TextSearch.{Text}
use eidetic_daemon.Api.Export.{Line}

pub data Method : Type 0 where
  get post delete options other_method : Method

-- `query` is URL.Query().Get, the empty text for a parameter that is missing; `surface` is its value
-- for "surface", as the tables hold it. `body` is `none` where it cannot be read.
pub record Request : Type 0 where
  pub method : Method
  pub path : Text
  pub query : String → Text
  pub surface : String
  pub body : Option Bytes
  pub authorization : Text

-- When a request is taken up, and when it has been worked on.
pub record Clock : Type 0 where
  pub start : ℤ
  pub stop : ℤ

-- What /ask answers and keeps in its cache.
pub record AskAnswer : Type 0 where
  pub question : Text
  pub fts_query : Text
  pub any_match : Bool
  pub engrams : List Engram

pub record Timeline : Type 0 where
  pub engrams : List Engram
  pub count : ℕ
  pub surfaces : List Text

-- The keys of `by_surface`, `top_hours` and `top_terms`, with their counts.
pub record Digest : Type 0 where
  pub window : Text
  pub since : ℤ
  pub total_engrams : ℕ
  pub by_surface : List (String × ℕ)
  pub top_hours : List (ℕ × ℕ)
  pub top_terms : List (Text × ℕ)
  pub sample_engrams : List Engram

pub record Metrics : Type 0 where
  pub engram_total : ℤ
  pub engram_by_surface : Option Counts
  pub ask_cache : ℕ × ℕ × ℕ

pub data Body : Type 0 where
  -- a message of the handler, or the error of a call
  message : String → Body
  failure : Error → Body
  health dashboard hooks_status preflight : Body
  metrics : Metrics → Body
  -- one line for each engram, and a last one
  stream : List Line → Body
  surface_counts : Counts → Body
  engram_list : List Engram → Body
  one_engram : Engram → Body
  deleted inserted : ℕ → Body
  created count_is : ℤ → Body
  -- with the header X-Ask-Cache: whether it is "hit"
  answer : Bool → AskAnswer → Body
  timeline : Timeline → Body
  digest : Digest → Body

pub record Response : Type 0 where
  pub status : ℕ
  pub body : Body

abbrev pub respond : ℕ → Body → Response
respond status body = record { status = status; body = body }

abbrev pub method_not_allowed : Response
method_not_allowed = respond 405 (message "method not allowed")

module _ {R : Type 0} where
  -- `if r.Method != http.MethodGet { … return }`: what is done on a GET, and what otherwise
  abbrev pub when_get : Method → R → R → R
  when_get get on_get otherwise = on_get
  when_get _ on_get otherwise = otherwise

  abbrev pub when_post : Method → R → R → R
  when_post post on_post otherwise = on_post
  when_post _ on_post otherwise = otherwise
