-- ===== src/Api/Latency.antt =====
-- `LatencyTracker` of internal/api/latency.go: the most recent samples in a ring. A sample is of any
-- type here; its conversion to microseconds and the percentiles, in floating point, are not modelled.
pub mod Recent
use eidetic_daemon.Prelude.{
  ℕ, zero, suc, ◌+◌, ◌==◌, leb, ltb, Bool, true, false, List, [], ◌∷◌, take, replicate,
  if◌then◌else◌,
}

module _ {A : Type 0} where
  -- buf[i] = x
  unfoldable pub put_at : ℕ → A → List A → List A
  put_at i x [] = []
  put_at zero x (y ∷ ys) = x ∷ ys
  put_at (suc i) x (y ∷ ys) = y ∷ put_at i x ys

pub record LatencyTracker (A : Type 0) : Type 0 where
  pub buf : List A
  pub cap : ℕ
  pub head : ℕ
  pub filled : Bool

module _ {A : Type 0} where
  abbrev pub new_latency_tracker : A → ℕ → LatencyTracker A
  new_latency_tracker nothing capacity = record {
    buf = replicate capacity nothing;
    cap = capacity;
    head = 0;
    filled = false;
  }

  unfoldable pub record_sample : A → LatencyTracker A → LatencyTracker A
  record_sample x t =
      let buf' = put_at t.head x t.buf in
      if t.cap == 0
      then t
      else if leb t.cap (t.head + 1)
      then record { buf = buf'; cap = t.cap; head = 0; filled = true }
      else record { buf = buf'; cap = t.cap; head = t.head + 1; filled = t.filled }

  -- What `Percentiles` copies under the lock.
  unfoldable pub samples : LatencyTracker A → List A
  samples t = if t.filled then t.buf else if ltb 0 t.head then take t.head t.buf else []

  unfoldable pub count_samples : LatencyTracker A → ℕ
  count_samples t = if t.filled then t.cap else t.head
