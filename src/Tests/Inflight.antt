-- ===== src/Tests/Inflight.antt =====
-- A burst of events on one file, and a shutdown.
use eidetic_daemon.Prelude.{◌≡◌, refl, pos, ◌+ℤ◌, ◌-ℤ◌, false, All, map, List, [], ◌∷◌}
use eidetic_daemon.Capture.Inflight.{
  Timer, finished, stopped, armed, new_watcher, advance, path_of, find_pending, delete_pending,
  scheduled, fires, leaves, finishes, flush_begins, flush_continues, Event, run,
}
use eidetic_daemon.Capture.Inflight.Drain.{outstanding, IsCounted, run-IsCounted, inflight-zero}

-- The second event stops the first timer; the third stands in `pending` when the daemon stops.
abbrev burst : List Event
burst =
    scheduled "a.jsonl"
    ∷ scheduled "a.jsonl"
    ∷ fires 1
    ∷ leaves 1
    ∷ scheduled "a.jsonl"
    ∷ flush_begins
    ∷ finishes 1
    ∷ flush_continues
    ∷ []

burst_phases :
    map (λ (t : Timer). t.phase) (run burst new_watcher).timers ≡ stopped ∷ finished ∷ stopped ∷ []
unfolding run advance find_pending delete_pending path_of
burst_phases = refl

burst_drained : (run burst new_watcher).inflight ≡ pos 0
unfolding run advance find_pending delete_pending path_of ◌+ℤ◌ ◌-ℤ◌
burst_drained = refl

-- A callback that has started drops from `pending` the timer that replaced its own: the next event
-- arms a third timer while the second is still armed.
abbrev overtaken : List Event
overtaken =
    scheduled "a.jsonl"
    ∷ fires 0
    ∷ scheduled "a.jsonl"
    ∷ leaves 0
    ∷ scheduled "a.jsonl"
    ∷ finishes 0
    ∷ []

overtaken_phases :
    map (λ (t : Timer). t.phase) (run overtaken new_watcher).timers ≡ finished ∷ armed ∷ armed ∷ []
unfolding run advance find_pending delete_pending path_of
overtaken_phases = refl

run-IsCounted_example : IsCounted (run overtaken new_watcher)
run-IsCounted_example = run-IsCounted overtaken new_watcher refl

inflight-zero_example : All (λ t. outstanding t ≡ false) (run burst new_watcher).timers
inflight-zero_example = inflight-zero burst burst_drained
