-- ===== src/Capture/Inflight/Drain.antt =====
-- What `Run` may rely on when the WaitGroup lets it return.
use eidetic_daemon.Prelude.{
  ℕ, zero, suc, ◌+◌, pos, ◌-ℤ◌, int_laws, arith, String, ◌≡◌, refl, Bool, true, false, Option, none,
  some, Option-cases, inl, inr, List, [], ◌∷◌, count_p, count_p-append, if◌then◌else◌, All,
  All-false_of_count_p,
}
use eidetic_daemon.Capture.Inflight.{
  Phase, armed, fired, parsing, finished, stopped, Timer, Watcher, new_watcher, on_stop, on_fire,
  on_delete, on_finish, advance, release_if_stopped, reserve, schedule_parse, leave_pending,
  finish_parse, begin_flush, flush_next, fire, find_pending, delete_pending, path_of, Event,
  scheduled, scanned, fires, leaves, finishes, flush_begins, flush_continues, step, run,
}

-- A call of parseAndCommit is still to come or has not returned.
abbrev is_outstanding : Phase → Bool
is_outstanding armed = true
is_outstanding fired = true
is_outstanding parsing = true
is_outstanding finished = false
is_outstanding stopped = false

abbrev pub outstanding : Timer → Bool
outstanding t = is_outstanding t.phase

abbrev pub IsCounted : Watcher → Type 0
IsCounted w = w.inflight ≡ pos (count_p outstanding w.timers)

-- A change of phase by which `lost` calls are done.
abbrev Loses : ℕ → (Phase → Option Phase) → Type 0
Loses lost f =
    (p q : Phase)
    → f p ≡ some q
    → (if is_outstanding p then 1 else 0) ≡ (if is_outstanding q then 1 else 0) + lost

on_stop-Loses : Loses 1 on_stop
on_stop-Loses p q h = ground arith

on_fire-Loses : Loses 0 on_fire
on_fire-Loses p q h = ground arith

on_delete-Loses : Loses 0 on_delete
on_delete-Loses p q h = ground arith

on_finish-Loses : Loses 1 on_finish
on_finish-Loses p q h = ground arith

count-advance :
    (f : Phase → Option Phase) (lost : ℕ)
    → Loses lost f
    → (i : ℕ) (ts us : List Timer) → advance f i ts ≡ some us
    → count_p outstanding ts ≡ count_p outstanding us + lost
unfolding advance
count-advance f lost loses i [] us h = cc
count-advance f lost loses zero (t ∷ ts) us h = elim (Option-cases (f t.phase)) [
  | inl e ↦ absurd (ground (arith, e))
  | inr (q, e) ↦
      let lost_one = loses t.phase q e in
      let same : us ≡ record t { phase = q } ∷ ts = cc (h, e) in rw same (ground (arith, lost_one))
]
count-advance f lost loses (suc i) (t ∷ ts) us h = elim (Option-cases (advance f i ts)) [
  | inl e ↦ absurd (ground (arith, e))
  | inr (vs, e) ↦
      let ih = count-advance f lost loses i ts vs e in
      let same : us ≡ t ∷ vs = cc (h, e) in rw same (ground (arith, ih))
]

module _ (w : Watcher) (counted : IsCounted w) where
  -- An event that moves one timer on, or does nothing.
  advanced :
      (f : Phase → Option Phase) (lost i : ℕ) (change : List Timer → Watcher)
      → Loses lost f
      → ((us : List Timer)
          → count_p outstanding w.timers ≡ count_p outstanding us + lost
          → IsCounted (change us))
      → IsCounted (elim (advance f i w.timers) as (λ _. Watcher) [ none ↦ w | some us ↦ change us ])
  advanced f lost i change loses after = elim (Option-cases (advance f i w.timers)) [
    | inl e ↦ rw e counted
    | inr (us, e) ↦ rw e (after us (count-advance f lost loses i w.timers us e))
  ]

  release_if_stopped-IsCounted : (i : ℕ) → IsCounted (release_if_stopped i w)
  unfolding release_if_stopped
  release_if_stopped-IsCounted i =
      advanced on_stop 1 i (λ us. record w { timers = us; inflight = w.inflight -ℤ pos 1 })
        on_stop-Loses (λ us one. rw (counted, one) (omega int_laws))

  reserve-IsCounted :
      (p : Phase) (path : String) → is_outstanding p ≡ true → IsCounted (reserve p path w)
  unfolding reserve
  reserve-IsCounted p path h =
      rw (counted, count_p-append outstanding w.timers (record { path = path; phase = p } ∷ []), h)
        (omega int_laws)

  fire-IsCounted : (i : ℕ) → IsCounted (fire i w)
  unfolding fire
  fire-IsCounted i =
      advanced on_fire 0 i (λ us. record w { timers = us }) on_fire-Loses
        (λ us one. rw counted (omega (int_laws, one)))

  leave_pending-IsCounted : (i : ℕ) → IsCounted (leave_pending i w)
  unfolding leave_pending
  leave_pending-IsCounted i =
      advanced on_delete 0 i
        (λ us. record w { timers = us; pending = delete_pending (path_of i w.timers) w.pending })
        on_delete-Loses (λ us one. rw counted (omega (int_laws, one)))

  finish_parse-IsCounted : (i : ℕ) → IsCounted (finish_parse i w)
  unfolding finish_parse
  finish_parse-IsCounted i =
      advanced on_finish 1 i (λ us. record w { timers = us; inflight = w.inflight -ℤ pos 1 })
        on_finish-Loses (λ us one. rw (counted, one) (omega int_laws))

schedule_parse-IsCounted :
    (path : String) (w : Watcher) → IsCounted w → IsCounted (schedule_parse path w)
unfolding schedule_parse reserve
schedule_parse-IsCounted path w counted = elim (Option-cases (find_pending path w.pending)) [
  | inl e ↦ rw e (reserve-IsCounted w counted armed path refl)
  | inr (i, e) ↦ rw e (
      reserve-IsCounted (release_if_stopped i w) (release_if_stopped-IsCounted w counted i) armed
        path refl)
]

flush_next-IsCounted : (w : Watcher) → IsCounted w → IsCounted (flush_next w)
unfolding flush_next
flush_next-IsCounted w counted = stopping_cases w.stopping
  where
    stopping_cases :
        (ids : List ℕ)
        → IsCounted (elim ids as (λ _. Watcher) [
          | [] ↦ w
          | i ∷ rest ↦ release_if_stopped i (record w { stopping = rest })
        ])
    stopping_cases [] = counted
    stopping_cases (i ∷ rest) =
        release_if_stopped-IsCounted (record w { stopping = rest }) counted i

step-IsCounted : (e : Event) (w : Watcher) → IsCounted w → IsCounted (step e w)
unfolding step begin_flush
step-IsCounted (scheduled path) w h = schedule_parse-IsCounted path w h
step-IsCounted (scanned path) w h = reserve-IsCounted w h parsing path refl
step-IsCounted (fires i) w h = fire-IsCounted w h i
step-IsCounted (leaves i) w h = leave_pending-IsCounted w h i
step-IsCounted (finishes i) w h = finish_parse-IsCounted w h i
step-IsCounted flush_begins w h = h
step-IsCounted flush_continues w h = flush_next-IsCounted w h

-- From a watcher whose WaitGroup counts exactly the calls of parseAndCommit that are still to come or
-- have not returned, any events lead to one of which the same holds.
pub run-IsCounted : (events : List Event) (w : Watcher) → IsCounted w → IsCounted (run events w)
unfolding run
run-IsCounted [] w h = h
run-IsCounted (e ∷ es) w h = run-IsCounted es (step e w) (step-IsCounted e w h)

-- When the WaitGroup of a new watcher is at 0 after any events, every call of parseAndCommit has
-- returned or was stopped before it began.
pub inflight-zero :
    (events : List Event)
    → (run events new_watcher).inflight ≡ pos 0
    → All (λ t. outstanding t ≡ false) (run events new_watcher).timers
inflight-zero events h =
    let counted = run-IsCounted events new_watcher refl in
    All-false_of_count_p outstanding (run events new_watcher).timers (cc (counted, h))
