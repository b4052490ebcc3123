-- ===== src/Capture/Inflight.antt =====
-- The debounce timers of `Watcher` in internal/capture/watcher.go, and `inflight`, the WaitGroup on
-- which `Run` blocks before it returns. Each event is one critical section, or one call of the timer
-- or of the WaitGroup; events come in any order, and one that cannot happen changes nothing.
-- `inflight` is an integer: below 0 the WaitGroup would panic.
pub mod Drain
use eidetic_daemon.Prelude.{
  ℕ, zero, suc, ℤ, pos, ◌+ℤ◌, ◌-ℤ◌, String, str_eq, Option, none, some, List, [], ◌∷◌, ◌++◌, map,
  length, if◌then◌else◌,
}
use mathlib.Core.Option

-- What has happened to a timer: it waits, its callback has started, the callback has left `pending`
-- and parses, the callback has returned, or the timer was stopped before it fired.
pub data Phase : Type 0 where
  armed fired parsing finished stopped : Phase

pub record Timer : Type 0 where
  pub path : String
  pub phase : Phase

-- Timers are known by the order of their creation. `stopping` is what `flushAll` has yet to stop.
pub record Watcher : Type 0 where
  pub timers : List Timer
  pub pending : List (String × ℕ)
  pub stopping : List ℕ
  pub inflight : ℤ

abbrev pub new_watcher : Watcher
new_watcher = record { timers = []; pending = []; stopping = []; inflight = pos 0 }

-- Stop, and whether it came before the timer fired.
abbrev pub on_stop : Phase → Option Phase
on_stop armed = some stopped
on_stop _ = none

abbrev pub on_fire : Phase → Option Phase
on_fire armed = some fired
on_fire _ = none

abbrev pub on_delete : Phase → Option Phase
on_delete fired = some parsing
on_delete _ = none

abbrev pub on_finish : Phase → Option Phase
on_finish parsing = some finished
on_finish _ = none

unfoldable pub advance : (Phase → Option Phase) → ℕ → List Timer → Option (List Timer)
advance f i [] = none
advance f zero (t ∷ ts) = Option.map (λ p. record t { phase = p } ∷ ts) (f t.phase)
advance f (suc i) (t ∷ ts) = Option.map (λ us. t ∷ us) (advance f i ts)

unfoldable pub path_of : ℕ → List Timer → String
path_of i [] = ""
path_of zero (t ∷ ts) = t.path
path_of (suc i) (t ∷ ts) = path_of i ts

unfoldable pub find_pending : String → List (String × ℕ) → Option ℕ
find_pending path [] = none
find_pending path ((p, i) ∷ rest) =
    let later = find_pending path rest in if str_eq p path then some i else later

unfoldable pub delete_pending : String → List (String × ℕ) → List (String × ℕ)
delete_pending path [] = []
delete_pending path ((p, i) ∷ rest) =
    let later = delete_pending path rest in if str_eq p path then later else (p, i) ∷ later

-- if t.Stop() { w.inflight.Done() }
unfoldable pub release_if_stopped : ℕ → Watcher → Watcher
release_if_stopped i w = elim (advance on_stop i w.timers) [
  | none ↦ w
  | some ts ↦ record w { timers = ts; inflight = w.inflight -ℤ pos 1 }
]

-- inflight.Add(1), and a new timer or call.
unfoldable pub reserve : Phase → String → Watcher → Watcher
reserve phase path w = record w {
  timers = w.timers ++ record { path = path; phase = phase } ∷ [];
  inflight = w.inflight +ℤ pos 1;
}

unfoldable pub schedule_parse : String → Watcher → Watcher
schedule_parse path w =
    let w' : Watcher = elim (find_pending path w.pending) [
      | none ↦ w
      | some i ↦ release_if_stopped i w
    ] in
    let armed_one = reserve armed path w' in
    record armed_one { pending = (path, length w'.timers) ∷ delete_pending path w'.pending }

-- The callback's critical section: whichever timer `pending` holds for the path is dropped from it.
unfoldable pub leave_pending : ℕ → Watcher → Watcher
leave_pending i w = elim (advance on_delete i w.timers) [
  | none ↦ w
  | some ts ↦ record w { timers = ts; pending = delete_pending (path_of i w.timers) w.pending }
]

-- defer w.inflight.Done()
unfoldable pub finish_parse : ℕ → Watcher → Watcher
finish_parse i w = elim (advance on_finish i w.timers) [
  | none ↦ w
  | some ts ↦ record w { timers = ts; inflight = w.inflight -ℤ pos 1 }
]

-- The critical section of `flushAll`, and one round of the loop after it.
unfoldable pub begin_flush : Watcher → Watcher
begin_flush w = record w { pending = []; stopping = map (λ e. e.1) w.pending ++ w.stopping }

unfoldable pub flush_next : Watcher → Watcher
flush_next w = elim w.stopping [
  | [] ↦ w
  | i ∷ rest ↦ release_if_stopped i (record w { stopping = rest })
]

-- The runtime starts a timer's callback.
unfoldable pub fire : ℕ → Watcher → Watcher
fire i w = elim (advance on_fire i w.timers) [ none ↦ w | some ts ↦ record w { timers = ts } ]

pub data Event : Type 0 where
  -- scheduleParse, and the call that scanInitial makes itself
  scheduled scanned : String → Event
  fires leaves finishes : ℕ → Event
  flush_begins flush_continues : Event

unfoldable pub step : Event → Watcher → Watcher
unfolding schedule_parse reserve fire leave_pending finish_parse begin_flush flush_next
    release_if_stopped
step (scheduled path) w = schedule_parse path w
step (scanned path) w = reserve parsing path w
step (fires i) w = fire i w
step (leaves i) w = leave_pending i w
step (finishes i) w = finish_parse i w
step flush_begins w = begin_flush w
step flush_continues w = flush_next w

unfoldable pub run : List Event → Watcher → Watcher
unfolding step
run [] w = w
run (e ∷ es) w = run es (step e w)
