-- ===== src/Ccr/Tools.antt =====
-- The methods that internal/ccr/mcp.go, internal/ccr/unix.go and internal/ccr/ws.go answer, on stdio, on
-- a socket and on a web socket.
-- A request is what encoding/json makes of a line; of an answer the texts are left out.
pub mod Roles
use eidetic_daemon.Prelude.{
  ℤ, pos, Bool, Option, none, some, List, [], ◌∷◌, map, codes, if◌then◌else◌,
}
use mathlib.Core.Option
use eidetic_daemon.TextSearch.{Text, same_text, member}
use eidetic_daemon.Ccr.{WakeEvent, Subscription, Broker, subscribe, heartbeat, wake_active}

-- The arguments of a call that have the type asked for.
pub record Arguments : Type 0 where
  pub role : Option Text
  pub timeout_seconds : Option ℤ
  pub subscription_id : Option Text

pub record Params : Type 0 where
  pub name : Text
  pub arguments : Arguments

-- `none` as parameters are those that cannot be decoded.
pub data Request : Type 0 where
  unreadable initialize initialized tools_list : Request
  tools_call : Option Params → Request
  other_method : Text → Request

pub data Answer : Type 0 where
  parse_error capabilities tool_list invalid_params role_rejected heartbeat_ack : Answer
  stale_subscription wake_triggered tool_not_found method_not_found silence : Answer
  invalid_request : Answer
  -- an answer follows with the first event of the subscription, or after so many seconds
  waits : Text → ℤ → Answer

abbrev pub or_empty : Option Text → Text
or_empty none = []
or_empty (some t) = t

abbrev pub or_default : Option ℤ → ℤ
or_default none = pos 270
or_default (some t) = t

abbrev pub canonical_roles : List Text
canonical_roles = map codes (
    "main" ∷ "peer" ∷ "op_assistant" ∷ "cc_tb" ∷ "agy" ∷ "test_hold" ∷ "claude_code_test_hold" ∷ [])

unfoldable pub is_canonical_role : Text → Bool
unfolding member
is_canonical_role role = member role canonical_roles

-- The fields of the event of the tool test_wake.
abbrev pub test_event : Text → ℤ → WakeEvent
test_event role now = record {
  agent_role = role;
  trigger = codes "test";
  payload = codes "test payload";
  fired_at = now;
}

unfoldable pub call_subscribe : Text → ℤ → Arguments → Broker → Option (Answer × Broker)
unfolding is_canonical_role subscribe
call_subscribe id now a b =
    let role = or_empty a.role in
    some (
      if is_canonical_role role
      then (waits id (or_default a.timeout_seconds), subscribe id role now b)
      else (role_rejected, b))

unfoldable pub call_heartbeat : ℤ → Arguments → Broker → Option (Answer × Broker)
unfolding heartbeat
call_heartbeat now a b =
    let (known, b') = heartbeat (or_empty a.subscription_id) now b in
    some (if known then heartbeat_ack else stale_subscription, b')

unfoldable pub call_wake : ℤ → Arguments → Broker → Option (Answer × Broker)
unfolding wake_active
call_wake now a b =
    Option.map (λ b'. (wake_triggered, b')) (wake_active (test_event (or_empty a.role) now) b)

abbrev pub subscribe_names : List Text
subscribe_names = map codes ("nucleus_ccr_subscribe" ∷ "eidetic_ccr_subscribe" ∷ [])

-- `id` is the random id that a subscription gets; a broker that panics has no result.
unfoldable pub call_tool : Text → ℤ → Option Params → Broker → Option (Answer × Broker)
unfolding member same_text call_subscribe call_heartbeat call_wake
call_tool id now none b = some (invalid_params, b)
call_tool id now (some p) b =
    if member p.name subscribe_names
    then call_subscribe id now p.arguments b
    else if same_text p.name (codes "heartbeat")
    then call_heartbeat now p.arguments b
    else if same_text p.name (codes "test_wake")
    then call_wake now p.arguments b
    else some (tool_not_found, b)

-- RunMCPServer from the decoding of a line on, and handleMCPMethod
unfoldable pub handle_method : Text → ℤ → Request → Broker → Option (Answer × Broker)
unfolding call_tool
handle_method id now unreadable b = some (parse_error, b)
handle_method id now initialize b = some (capabilities, b)
handle_method id now initialized b = some (silence, b)
handle_method id now tools_list b = some (tool_list, b)
handle_method id now (tools_call params) b = call_tool id now params b
handle_method id now (other_method []) b = some (silence, b)
handle_method id now (other_method (c ∷ name)) b = some (method_not_found, b)

-- handleUnixConnection and handleUnixMethod: the same switch, with answers to the connection
unfoldable pub handle_unix_method : Text → ℤ → Request → Broker → Option (Answer × Broker)
unfolding handle_method
handle_unix_method id now request b = handle_method id now request b

-- handleWSMessage: the version is checked first, and the empty method is not ignored.
unfoldable pub handle_ws_message : Text → Text → ℤ → Request → Broker → Option (Answer × Broker)
unfolding same_text handle_method
handle_ws_message version id now unreadable b = some (parse_error, b)
handle_ws_message version id now (other_method name) b =
    some (if same_text version (codes "2.0") then method_not_found else invalid_request, b)
handle_ws_message version id now request b =
    let answered = handle_method id now request b in
    if same_text version (codes "2.0") then answered else some (invalid_request, b)

-- Where a request comes from, on a web socket with the version that it states.
pub data Transport : Type 0 where
  stdio unix_socket : Transport
  web_socket : Text → Transport

-- A request with the random id that a subscription gets and the time.
pub record Message : Type 0 where
  pub transport : Transport
  pub id : Text
  pub now : ℤ
  pub request : Request

abbrev pub handle_from : Transport → Text → ℤ → Request → Broker → Option (Answer × Broker)
handle_from stdio id now request b = handle_method id now request b
handle_from unix_socket id now request b = handle_unix_method id now request b
handle_from (web_socket version) id now request b = handle_ws_message version id now request b

-- Some requests in turn.
unfoldable pub handle_all : List Message → Broker → Option Broker
unfolding handle_method handle_unix_method handle_ws_message
handle_all [] b = some b
handle_all (m ∷ rest) b = elim (handle_from m.transport m.id m.now m.request b) [
  | none ↦ none
  | some (_, b') ↦ handle_all rest b'
]

-- What the goroutine that waits receives: the first event, the zero event if the channel is closed
-- and empty, or nothing until the timeout.
pub data Received : Type 0 where
  event : WakeEvent → Received
  zero_event timeout : Received

unfoldable pub receive_event : Subscription → Received
receive_event s = elim s.buffer [ e ∷ _ ↦ event e | [] ↦ if s.closed then zero_event else timeout ]
