-- ===== src/Api/Routes/Guard.antt =====
-- Who is let in: the middleware for CORS, the token, and the open path.
use eidetic_daemon.Prelude.{
  ◌&&◌, ◌≡◌, refl, subst, sym, true, false, Bool-cases, inl, inr, Option-cases, none, some, codes,
  if◌then◌else◌,
}
use eidetic_daemon.TextSearch.{Text, same_text, member}
use eidetic_daemon.TextSearch.Same.{same_text_self, same_text-eq}
use eidetic_daemon.Auth.{Rejection, presented, enabled, validate, middleware}
use eidetic_daemon.Auth.Accepts.{validate_iff}
use eidetic_daemon.Api.Http.{Request, Clock, message, preflight, respond}
use eidetic_daemon.Api.Routes.{Config, Server, dispatch, guarded, serve, is_preflight, route}

-- What `Validate` answers with a token set, by a test of equality.
data Decided (want header : Text) : Type 0 where
  accepted :
      validate want header ≡ none → same_text (presented header) want ≡ true → Decided want header
  refused :
      (why : Rejection)
      → validate want header ≡ some why
      → same_text (presented header) want ≡ false
      → Decided want header

validate-Decided : (want header : Text) → enabled want ≡ true → Decided want header
validate-Decided want header on =
    let (to, from) = validate_iff want header on in
    elim (Option-cases (validate want header)) [
      | inl v ↦ accepted v (subst (λ t. same_text t want ≡ true) (sym (to v)) (same_text_self want))
      | inr (why, v) ↦ elim (Bool-cases (same_text (presented header) want)) [
        | inr differs ↦ refused why v differs
        | inl same ↦ cc (from (same_text-eq (presented header) want same), v)
      ]
    ]

module _ (config : Config) (clock : Clock) where
  open config use {auth_token, cors}

  -- With a token set, the server answers a preflight for CORS with 204, whatever its header; else it
  -- hands a request to its route exactly if the path is /healthz or the header presents the token, and
  -- answers 401 otherwise. In neither of the answers 204 and 401 is anything touched.
  pub serve-gate :
      (r : Request) (srv : Server)
      → enabled auth_token ≡ true
      → serve config clock r srv ≡ (
          if cors && is_preflight r.method
          then (respond 204 preflight, srv)
          else if same_text r.path (codes "/healthz")
          then dispatch config clock (route r.path) r srv
          else if same_text (presented r.authorization) auth_token
          then dispatch config clock (route r.path) r srv
          else (respond 401 (message "unauthorized"), srv))
  unfolding serve guarded middleware member
  serve-gate r srv on = elim (Bool-cases (cors && is_preflight r.method)) [
    | inl asked ↦ rw (asked, serve) refl
    | inr request ↦ elim (Bool-cases (same_text r.path (codes "/healthz"))) [
      | inl open_path ↦ rw (request, on, open_path, serve, guarded, middleware, member) refl
      | inr closed ↦ elim (validate-Decided auth_token r.authorization on) [
        | accepted v same ↦
            rw (request, on, closed, v, same, serve, guarded, middleware, member) refl
        | refused why v differs ↦
            rw (request, on, closed, v, differs, serve, guarded, middleware, member) refl
      ]
    ]
  ]
