-- ===== src/Tests/Latency.antt =====
-- A ring of three after five samples.
use eidetic_daemon.Prelude.{ℕ, ◌≡◌, refl, arith, List, [], ◌∷◌, SameItems, length}
use eidetic_daemon.Api.Latency.{
  LatencyTracker, new_latency_tracker, put_at, record_sample, samples, count_samples,
}
use eidetic_daemon.Api.Latency.Recent.{last_n, record_all, samples-last_n}

abbrev five : List ℕ
five = 1 ∷ 2 ∷ 3 ∷ 4 ∷ 5 ∷ []

abbrev ring : LatencyTracker ℕ
ring = record_all five (new_latency_tracker 0 3)

ring_of_three : samples ring ≡ 4 ∷ 5 ∷ 3 ∷ []
unfolding samples record_sample put_at
ring_of_three = refl

samples-last_n_example :
    SameItems (samples ring) (last_n 3 five) × (count_samples ring ≡ length (last_n 3 five))
samples-last_n_example = samples-last_n 0 3 five (omega arith)
