-- ===== src/Ccr.antt =====
-- `Broker` of internal/ccr/broker.go: who waits for wake events. A channel is its buffer and whether
-- it is closed; an operation that would panic, a send to a closed channel or a second close, has no
-- result. The mutex makes each operation one step. The notification of the desktop is left out.
pub mod Mailbox
pub mod Served
pub mod Tools
pub mod Relay
use eidetic_daemon.Prelude.{
  ℕ, ℤ, pos, ◌-ℤ◌, ltb_ℤ, ◌*◌, ltb, Bool, true, false, Option, none, some, List, [], ◌∷◌, ◌++◌,
  length, if◌then◌else◌,
}
use mathlib.Core.Option
use eidetic_daemon.TextSearch.{Text, same_text}
use eidetic_daemon.Dict.{Dict, lookup, put, remove}

pub record WakeEvent : Type 0 where
  pub agent_role : Text
  pub trigger : Text
  pub payload : Text
  pub fired_at : ℤ

pub record Subscription : Type 0 where
  pub role : Text
  pub buffer : List WakeEvent
  pub closed : Bool
  pub last_heart : ℤ

-- `left` are the subscriptions that are no longer in the map, but may still have a reader.
pub record Broker : Type 0 where
  pub subs : Dict Subscription
  pub left : List Subscription
  pub heartbeat_ttl : ℕ

abbrev pub new_broker : ℕ → Broker
new_broker ttl = record { subs = []; left = []; heartbeat_ttl = ttl }

abbrev pub channel_size : ℕ
channel_size = 10

abbrev pub new_subscription : Text → ℤ → Subscription
new_subscription role now = record { role = role; buffer = []; closed = false; last_heart = now }

abbrev pub and_left : Option Subscription → List Subscription → List Subscription
and_left none left = left
and_left (some s) left = s ∷ left

-- Subscribe, under a random id; one that is taken loses its entry.
unfoldable pub subscribe : Text → Text → ℤ → Broker → Broker
unfolding lookup put
subscribe id role now b = record b {
  subs = put id (new_subscription role now) b.subs;
  left = and_left (lookup id b.subs) b.left;
}

-- close(sub.Ch)
abbrev pub close_channel : Subscription → Option Subscription
close_channel s = if s.closed then none else some (record s { closed = true })

-- select with the send and a default: a full channel drops the event
abbrev pub send_or_drop : WakeEvent → Subscription → Option Subscription
send_or_drop e s =
    if s.closed
    then none
    else some
        (if ltb (length s.buffer) channel_size then record s { buffer = s.buffer ++ e ∷ [] } else s)

unfoldable pub unsubscribe : Text → Broker → Option Broker
unfolding lookup remove
unsubscribe id b = elim (lookup id b.subs) [
  | none ↦ some b
  | some s ↦
      Option.map (λ gone. record b { subs = remove id b.subs; left = gone ∷ b.left })
        (close_channel s)
]

-- Heartbeat, and whether the id is known
unfoldable pub heartbeat : Text → ℤ → Broker → Bool × Broker
unfolding lookup put
heartbeat id now b = elim (lookup id b.subs) [
  | none ↦ (false, b)
  | some s ↦ (true, record b { subs = put id (record s { last_heart = now }) b.subs })
]

abbrev pub and_entry :
    Text → Option Subscription → Option (Dict Subscription) → Option (Dict Subscription)
and_entry id (some s) (some subs) = some ((id, s) ∷ subs)
and_entry id _ _ = none

-- The loop of WakeActive.
unfoldable pub wake_each : WakeEvent → Dict Subscription → Option (Dict Subscription)
unfolding same_text
wake_each e [] = some []
wake_each e ((id, s) ∷ subs) =
    and_entry id (if same_text s.role e.agent_role then send_or_drop e s else some s)
      (wake_each e subs)

unfoldable pub wake_active : WakeEvent → Broker → Option Broker
unfolding wake_each
wake_active e b = Option.map (λ subs. record b { subs = subs }) (wake_each e b.subs)

-- now.Sub(sub.LastHeart) > b.heartbeatTTL*3
abbrev pub is_stale : ℕ → ℤ → Subscription → Bool
is_stale ttl now s = ltb_ℤ (pos (ttl * 3)) (now -ℤ s.last_heart)

-- What is kept, and what was closed.
abbrev pub Swept : Type 0
Swept = Dict Subscription × List Subscription

abbrev pub and_gone : Option Subscription → Option Swept → Option Swept
and_gone (some s) (some (subs, gone)) = some (subs, s ∷ gone)
and_gone _ _ = none

abbrev pub and_kept : Text → Subscription → Option Swept → Option Swept
and_kept id s (some (subs, gone)) = some ((id, s) ∷ subs, gone)
and_kept id s none = none

-- The loop of the janitor.
unfoldable pub sweep_each : ℕ → ℤ → Dict Subscription → Option Swept
sweep_each ttl now [] = some ([], [])
sweep_each ttl now ((id, s) ∷ subs) =
    let rest = sweep_each ttl now subs in
    if is_stale ttl now s then and_gone (close_channel s) rest else and_kept id s rest

unfoldable pub sweep : ℤ → Broker → Option Broker
unfolding sweep_each
sweep now b =
    Option.map (λ swept. record b { subs = swept.0; left = swept.1 ++ b.left })
      (sweep_each b.heartbeat_ttl now b.subs)

-- A reader takes the first event of its channel.
abbrev pub taken : Subscription → Subscription
taken s = record s { buffer = elim s.buffer [ [] ↦ [] | e ∷ rest ↦ rest ] }

unfoldable pub read : Text → Broker → Broker
unfolding lookup put
read id b = elim (lookup id b.subs) [
  | none ↦ b
  | some s ↦ record b { subs = put id (taken s) b.subs }
]

pub data Op : Type 0 where
  subscribes : Text → Text → ℤ → Op
  unsubscribes : Text → Op
  heartbeats : Text → ℤ → Op
  wakes : WakeEvent → Op
  sweeps : ℤ → Op
  reads : Text → Op

unfoldable pub step : Op → Broker → Option Broker
unfolding subscribe unsubscribe heartbeat wake_active sweep read
step (subscribes id role now) b = some (subscribe id role now b)
step (unsubscribes id) b = unsubscribe id b
step (heartbeats id now) b = some (heartbeat id now b).1
step (wakes e) b = wake_active e b
step (sweeps now) b = sweep now b
step (reads id) b = some (read id b)

unfoldable pub run : List Op → Broker → Option Broker
unfolding step
run [] b = some b
run (op ∷ ops) b = elim (step op b) [ none ↦ none | some b' ↦ run ops b' ]
