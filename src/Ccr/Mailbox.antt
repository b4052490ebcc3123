-- ===== src/Ccr/Mailbox.antt =====
-- Every subscription is served as if it were alone.
use eidetic_daemon.Prelude.{
  ℕ, ℤ, ltb, ◌+◌, ◌≤◌, length-append, arith, ◌≡◌, refl, Bool-cases, inl, inr, true, false, Option,
  none, some, List, [], ◌∷◌, ◌++◌, length, if◌then◌else◌,
}
use mathlib.Core.Option
use eidetic_daemon.TextSearch.{Text, same_text}
use eidetic_daemon.Dict.{Dict}
use eidetic_daemon.Dict.Distinct.{Distinct, map_values, without, unless, AllValues}
use eidetic_daemon.Ccr.{
  WakeEvent, Subscription, Broker, channel_size, new_subscription, is_stale, taken, wake_each,
  sweep_each, Op, subscribes, unsubscribes, heartbeats, wakes, sweeps, reads,
}

-- The event is added at the end, if the role is right and there is room.
abbrev pub delivered : WakeEvent → Subscription → Subscription
delivered e s =
    if same_text s.role e.agent_role
    then (if ltb (length s.buffer) channel_size
        then record s { buffer = s.buffer ++ e ∷ [] }
        else s)
    else s

abbrev pub beaten : ℤ → Subscription → Subscription
beaten now s = record s { last_heart = now }

-- What an operation does to the one subscription under `id`, if there is one.
unfoldable pub mail : ℕ → Text → Op → Option Subscription → Option Subscription
mail ttl id (subscribes i role now) box =
    if same_text i id then some (new_subscription role now) else box
mail ttl id (unsubscribes i) box = if same_text i id then none else box
mail ttl id (heartbeats i now) box = if same_text i id then Option.map (beaten now) box else box
mail ttl id (wakes e) box = Option.map (delivered e) box
mail ttl id (sweeps now) box = unless (is_stale ttl now) box
mail ttl id (reads i) box = if same_text i id then Option.map taken box else box

unfoldable pub mail_all : ℕ → Text → List Op → Option Subscription → Option Subscription
unfolding mail
mail_all ttl id [] box = box
mail_all ttl id (op ∷ ops) box = mail_all ttl id ops (mail ttl id op box)

-- An open channel that does not hold too much.
abbrev pub Fit : Subscription → Type 0
Fit s = (s.closed ≡ false) × (length s.buffer ≤ channel_size)

pub record Serving (b : Broker) : Type 0 where
  pub distinct : Distinct b.subs
  pub fit : AllValues Fit b.subs

pub delivered-Fit : (e : WakeEvent) (s : Subscription) → Fit s → Fit (delivered e s)
delivered-Fit e s h = elim (Bool-cases (same_text s.role e.agent_role)) [
  | inr f ↦ rw f h
  | inl f ↦ elim (Bool-cases (ltb (length s.buffer) channel_size)) [
    | inr g ↦ simp (f, g) h
    | inl g ↦
        simp (f, g)
          (
            h.0,
            (let size = length-append s.buffer (e ∷ []) in
                let room : length s.buffer + 1 ≤ 10 = ground arith in omega (arith, size)),
          )
  ]
]

pub taken-Fit : (s : Subscription) → Fit s → Fit (taken s)
taken-Fit s h = (h.0, rest_fits s.buffer h.1)
  where
    rest_fits :
        (buffer : List WakeEvent)
        → length buffer ≤ channel_size
        → length (elim buffer as (λ _. List WakeEvent) [ [] ↦ [] | e ∷ rest ↦ rest ]) ≤ channel_size
    rest_fits [] h = h
    rest_fits (e ∷ rest) h = omega arith

pub wake_each-delivered :
    (e : WakeEvent) (subs : Dict Subscription)
    → AllValues Fit subs
    → wake_each e subs ≡ some (map_values (delivered e) subs)
unfolding wake_each map_values
wake_each-delivered e [] h = refl
wake_each-delivered e ((id, s) ∷ subs) h = elim (Bool-cases (same_text s.role e.agent_role)) [
  | inl f ↦ simp (f, h.0.0, wake_each-delivered e subs h.1) refl
  | inr f ↦ simp (f, wake_each-delivered e subs h.1) refl
]

pub sweep_each-without :
    (ttl : ℕ) (now : ℤ) (subs : Dict Subscription)
    → AllValues Fit subs
    → (gone : List Subscription) × (sweep_each ttl now subs
        ≡ some (without (is_stale ttl now) subs, gone))
unfolding sweep_each without
sweep_each-without ttl now [] h = ([], refl)
sweep_each-without ttl now ((id, s) ∷ subs) h =
    let (gone, rest) = sweep_each-without ttl now subs h.1 in
    elim (Bool-cases (is_stale ttl now s)) [
      | inl f ↦ (record s { closed = true } ∷ gone, simp (f, h.0.0, rest, sweep_each, without) refl)
      | inr f ↦ (gone, simp (f, rest, sweep_each, without) refl)
    ]
