-- ===== src/Ccr/Tools/Roles.antt =====
-- Requests neither make the broker panic nor let in a role that is not one of the canonical ones.
use eidetic_daemon.Prelude.{
  ℕ, ℤ, ltb, ◌≡◌, refl, sym, ap, ◌∙◌, subst, Bool, Bool-cases, inl, inr, true, false, Option, none,
  some, List, [], ◌∷◌, length, codes, if◌then◌else◌,
}
use mathlib.Core.Option
use mathlib.Core.Option.{some-injective}
use eidetic_daemon.TextSearch.{Text, same_text, member}
use eidetic_daemon.Dict.{lookup}
use eidetic_daemon.Dict.Distinct.{unless}
use eidetic_daemon.Ccr.{
  WakeEvent, Subscription, Broker, channel_size, is_stale, subscribe, heartbeat, taken, Op,
  subscribes, unsubscribes, heartbeats, wakes, sweeps, reads, step,
}
use eidetic_daemon.Ccr.Mailbox.{delivered, beaten, mail, Serving}
use eidetic_daemon.Ccr.Served.{step-Serves}
use eidetic_daemon.Ccr.Tools.{
  Arguments, Params, Request, Answer, unreadable, initialize, initialized, tools_list, tools_call,
  other_method, or_empty, or_default, waits, role_rejected, wake_triggered, invalid_params,
  tool_not_found, parse_error, capabilities, silence, tool_list, method_not_found,
  is_canonical_role, test_event, call_subscribe, call_heartbeat, call_wake, subscribe_names,
  call_tool, handle_method, handle_all, handle_unix_method, handle_ws_message, handle_from,
  Transport, stdio, unix_socket, web_socket, Message, invalid_request,
}

abbrev pub HasRole : Option Subscription → Type 0
HasRole none = Unit
HasRole (some s) = is_canonical_role s.role ≡ true

-- Open channels with room, and a canonical role at each.
pub record IsProper (b : Broker) : Type 0 where
  pub serving : Serving b
  pub roles : (id : Text) → HasRole (lookup id b.subs)

-- The operations that let in no other role.
abbrev Lets : Op → Type 0
Lets (subscribes i role now) = is_canonical_role role ≡ true
Lets _ = Unit

HasRole-map :
    (f : Subscription → Subscription) (box : Option Subscription)
    → ((s : Subscription) → (f s).role ≡ s.role)
    → HasRole box
    → HasRole (Option.map f box)
HasRole-map f none same h = tt
HasRole-map f (some s) same h = ap is_canonical_role (same s) ∙ h

delivered-role : (e : WakeEvent) (s : Subscription) → (delivered e s).role ≡ s.role
delivered-role e s = elim (Bool-cases (same_text s.role e.agent_role)) [
  | inr f ↦ rw f refl
  | inl f ↦ elim (Bool-cases (ltb (length s.buffer) channel_size)) [
    | inl g ↦ simp (f, g) refl
    | inr g ↦ simp (f, g) refl
  ]
]

if-HasRole :
    (t : Bool) (x y : Option Subscription) → HasRole x → HasRole y → HasRole (if t then x else y)
if-HasRole true x y h k = h
if-HasRole false x y h k = k

unless-HasRole :
    (p : Subscription → Bool) (box : Option Subscription) → HasRole box → HasRole (unless p box)
unless-HasRole p none h = tt
unless-HasRole p (some s) h = if-HasRole (p s) none (some s) tt h

mail-HasRole :
    (ttl : ℕ) (id : Text) (op : Op) (box : Option Subscription)
    → Lets op
    → HasRole box
    → HasRole (mail ttl id op box)
unfolding mail
mail-HasRole ttl id (subscribes i role now) box ok h = if-HasRole (same_text i id) _ box ok h
mail-HasRole ttl id (unsubscribes i) box ok h = if-HasRole (same_text i id) none box tt h
mail-HasRole ttl id (heartbeats i now) box ok h =
    if-HasRole (same_text i id) _ box (HasRole-map (beaten now) box (λ s. refl) h) h
mail-HasRole ttl id (wakes e) box ok h = HasRole-map (delivered e) box (delivered-role e) h
mail-HasRole ttl id (sweeps now) box ok h = unless-HasRole (is_stale ttl now) box h
mail-HasRole ttl id (reads i) box ok h =
    if-HasRole (same_text i id) _ box (HasRole-map taken box (λ s. refl) h) h

step-IsProper : (op : Op) (b b' : Broker) → Lets op → IsProper b → step op b ≡ some b' → IsProper b'
step-IsProper op b b' ok h returns =
    let s = step-Serves op b h.serving in
    subst IsProper (some-injective _ _ (sym s.returns ∙ returns)) (record {
      serving = s.serving;
      roles = λ id.
          subst HasRole (sym (s.mailed id))
            (mail-HasRole b.heartbeat_ttl id op (lookup id b.subs) ok (h.roles id));
    })

-- A request is answered, and the broker stays proper.
abbrev Answers : Option (Answer × Broker) → Type 0
Answers r = (a : Answer) × (b : Broker) × (r ≡ some (a, b)) × IsProper b

call_subscribe-Answers :
    (id : Text) (now : ℤ) (a : Arguments) (b : Broker)
    → IsProper b
    → Answers (call_subscribe id now a b)
unfolding call_subscribe step
call_subscribe-Answers id now a b h =
    let role = or_empty a.role in
    elim (Bool-cases (is_canonical_role role)) [
      | inl e ↦ (
        waits id (or_default a.timeout_seconds),
        subscribe id role now b,
        simp (e, call_subscribe) refl,
        step-IsProper (subscribes id role now) b (subscribe id role now b) e h refl,
      )
      | inr e ↦ (role_rejected, b, simp (e, call_subscribe) refl, h)
    ]

call_heartbeat-Answers :
    (now : ℤ) (a : Arguments) (b : Broker) → IsProper b → Answers (call_heartbeat now a b)
unfolding call_heartbeat step
call_heartbeat-Answers now a b h =
    let id = or_empty a.subscription_id in
    (
      _,
      (heartbeat id now b).1,
      refl,
      step-IsProper (heartbeats id now) b (heartbeat id now b).1 tt h refl,
    )

call_wake-Answers :
    (now : ℤ) (a : Arguments) (b : Broker) → IsProper b → Answers (call_wake now a b)
unfolding call_wake step
call_wake-Answers now a b h =
    let e = test_event (or_empty a.role) now in
    let s = step-Serves (wakes e) b h.serving in
    (
      wake_triggered,
      s.next,
      rw (call_wake, s.returns) refl,
      step-IsProper (wakes e) b s.next tt h s.returns,
    )

call_tool-Answers :
    (id : Text) (now : ℤ) (params : Option Params) (b : Broker)
    → IsProper b
    → Answers (call_tool id now params b)
unfolding call_tool
call_tool-Answers id now none b h = (invalid_params, b, refl, h)
call_tool-Answers id now (some p) b h = elim (Bool-cases (member p.name subscribe_names)) [
  | inl e ↦ simp (e, call_tool) (call_subscribe-Answers id now p.arguments b h)
  | inr e ↦ elim (Bool-cases (same_text p.name (codes "heartbeat"))) [
    | inl f ↦ simp (e, f, call_tool) (call_heartbeat-Answers now p.arguments b h)
    | inr f ↦ elim (Bool-cases (same_text p.name (codes "test_wake"))) [
      | inl g ↦ simp (e, f, g, call_tool) (call_wake-Answers now p.arguments b h)
      | inr g ↦ simp (e, f, g, call_tool) (tool_not_found, b, refl, h)
    ]
  ]
]

handle_method-Answers :
    (id : Text) (now : ℤ) (request : Request) (b : Broker)
    → IsProper b
    → Answers (handle_method id now request b)
unfolding handle_method
handle_method-Answers id now unreadable b h = (parse_error, b, refl, h)
handle_method-Answers id now initialize b h = (capabilities, b, refl, h)
handle_method-Answers id now initialized b h = (silence, b, refl, h)
handle_method-Answers id now tools_list b h = (tool_list, b, refl, h)
handle_method-Answers id now (tools_call params) b h = call_tool-Answers id now params b h
handle_method-Answers id now (other_method []) b h = (silence, b, refl, h)
handle_method-Answers id now (other_method (c ∷ name)) b h = (method_not_found, b, refl, h)

checked-Answers :
    (version : Text) (r : Option (Answer × Broker)) (b : Broker)
    → IsProper b
    → Answers r
    → Answers (if same_text version (codes "2.0") then r else some (invalid_request, b))
checked-Answers version r b h answers = elim (Bool-cases (same_text version (codes "2.0"))) [
  | inl e ↦ rw e answers
  | inr e ↦ rw e (invalid_request, b, refl, h)
]

handle_ws_message-Answers :
    (version id : Text) (now : ℤ) (request : Request) (b : Broker)
    → IsProper b
    → Answers (handle_ws_message version id now request b)
unfolding handle_ws_message
handle_ws_message-Answers version id now unreadable b h = (parse_error, b, refl, h)
handle_ws_message-Answers version id now (other_method name) b h = (_, b, refl, h)
handle_ws_message-Answers version id now initialize b h =
    checked-Answers version _ b h (handle_method-Answers id now initialize b h)
handle_ws_message-Answers version id now initialized b h =
    checked-Answers version _ b h (handle_method-Answers id now initialized b h)
handle_ws_message-Answers version id now tools_list b h =
    checked-Answers version _ b h (handle_method-Answers id now tools_list b h)
handle_ws_message-Answers version id now (tools_call params) b h =
    checked-Answers version _ b h (handle_method-Answers id now (tools_call params) b h)

handle_from-Answers :
    (t : Transport) (id : Text) (now : ℤ) (request : Request) (b : Broker)
    → IsProper b
    → Answers (handle_from t id now request b)
unfolding handle_unix_method
handle_from-Answers stdio id now request b h = handle_method-Answers id now request b h
handle_from-Answers unix_socket id now request b h = handle_method-Answers id now request b h
handle_from-Answers (web_socket version) id now request b h =
    handle_ws_message-Answers version id now request b h

-- From a broker with canonical roles only, of which all channels are open and hold at most ten events,
-- any requests over stdio, the socket and the web socket are handled without a send to a closed
-- channel, and leave such a broker.
pub handle_all-IsProper :
    (messages : List Message) (b : Broker)
    → IsProper b
    → (last : Broker) × (handle_all messages b ≡ some last) × IsProper last
unfolding handle_all
handle_all-IsProper [] b h = (b, refl, h)
handle_all-IsProper (m ∷ rest) b h =
    let (a, next, e, proper) = handle_from-Answers m.transport m.id m.now m.request b h in
    let (last, f, done) = handle_all-IsProper rest next proper in (last, rw (handle_all, e) f, done)
