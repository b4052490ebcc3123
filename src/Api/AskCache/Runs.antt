-- ===== src/Api/AskCache/Runs.antt =====
-- Whole runs of the answer cache, from a new one.
use eidetic_daemon.Prelude.{ℕ, ◌≤◌, arith, ℤ, ◌≡◌, refl, ap₂, subst, Option, List, [], ◌∷◌, length}
use eidetic_daemon.TextSearch.{Text}
use eidetic_daemon.Api.AskCache.{AskCache, get, put, new_ask_cache, entry}
use eidetic_daemon.Api.AskCache.Linked.{Linked}
use eidetic_daemon.Api.AskCache.Refines.{Kept, view, kept_get, kept_put, Leaves, get-Leaves}
use eidetic_daemon.Api.AskCache.Puts.{put-Leaves}

-- A call, and the time at which it reads the clock.
pub data Call (V : Type 0) : Type 0 where
  to_get : ℤ → Text → Call V
  to_put : ℤ → Text → V → Call V

module _ {V : Type 0} where
  -- The answers of Get in order, and the cache at the end.
  unfoldable pub run : List (Call V) → AskCache V → List (Option V) × AskCache V
  run [] c = ([], c)
  run (to_get now key ∷ calls) c =
      let (answer, c') = get now key c in
      let (answers, end) = run calls c' in (answer ∷ answers, end)
  run (to_put now key value ∷ calls) c = run calls (put now key value c)

  -- The same with a list of answers by key.
  unfoldable pub run_kept : ℕ → ℤ → List (Call V) → List (Kept V) → List (Option V) × List (Kept V)
  run_kept max ttl [] kept = ([], kept)
  run_kept max ttl (to_get now key ∷ calls) kept =
      let (answer, kept') = kept_get now key kept in
      let (answers, end) = run_kept max ttl calls kept' in (answer ∷ answers, end)
  run_kept max ttl (to_put now key value ∷ calls) kept =
      run_kept max ttl calls (kept_put max ttl now key value kept)

  record Agrees (calls : List (Call V)) (c : AskCache V) (max : ℕ) (ttl : ℤ) (kept : List (Kept V))
      : Type 0 where
    pub answers : (run calls c).0 ≡ (run_kept max ttl calls kept).0
    pub shows : view (run calls c).1 ≡ (run_kept max ttl calls kept).1
    pub few : length (run calls c).1.order ≤ max

  carry :
      (calls : List (Call V)) (c c' : AskCache V) (kept : List (Kept V))
      → Leaves c c' kept
      → Agrees calls c' c'.max c'.ttl (view c')
      → Agrees calls c' c.max c.ttl kept
  carry calls c c' kept l a =
      subst (λ m. Agrees calls c' m c.ttl kept) l.max_same
        (subst (λ t. Agrees calls c' c'.max t kept) l.ttl_same
          (subst (λ k. Agrees calls c' c'.max c'.ttl k) l.shows a))

  run-Agrees :
      (calls : List (Call V)) (c : AskCache V)
      → Linked c
      → length c.order ≤ c.max
      → Agrees calls c c.max c.ttl (view c)
  unfolding run run_kept
  run-Agrees [] c l few = record { answers = refl; shows = refl; few = few }
  run-Agrees (to_get now key ∷ calls) c l few =
      let (answer, leaves) = get-Leaves now key c l few in
      let rest =
        carry calls c (get now key c).1 _ leaves
          (run-Agrees calls (get now key c).1 leaves.linked leaves.few) in
      record { answers = ap₂ ◌∷◌ answer rest.answers; shows = rest.shows; few = rest.few }
  run-Agrees (to_put now key value ∷ calls) c l few =
      let leaves = put-Leaves now key value c l few in
      let rest =
        carry calls c (put now key value c) _ leaves
          (run-Agrees calls (put now key value c) leaves.linked leaves.few) in
      record { answers = rest.answers; shows = rest.shows; few = rest.few }

  -- From a new cache, any calls of Get and Put at any times answer as the list of answers by key does, and
  -- leave that list; there are never more of them than the capacity.
  pub run-eq-run_kept :
      (max : ℕ) (ttl : ℤ) (calls : List (Call V))
      → ((run calls (new_ask_cache max ttl)).0 ≡ (run_kept max ttl calls []).0)
        × (view (run calls (new_ask_cache max ttl)).1 ≡ (run_kept max ttl calls []).1)
        × (length (run calls (new_ask_cache max ttl)).1.order ≤ max)
  unfolding entry
  run-eq-run_kept max ttl calls =
      let agrees =
        run-Agrees calls (new_ask_cache max ttl)
          (record { distinct = tt; old = tt; entries = λ key. refl }) (omega arith) in
      (agrees.answers, agrees.shows, agrees.few)
