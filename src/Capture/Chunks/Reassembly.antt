-- ===== src/Capture/Chunks/Reassembly.antt =====
-- A split record can be put together again.
use native.Mathlib.Nat.{div-add-mod, mod-lt}
use eidetic_daemon.Prelude.{
  ℕ, zero, suc, ◌+◌, ◌-◌, ◌*◌, ◌/◌, ◌≤◌, ◌<◌, ℤ, String, ltb, arith, ◌≡◌, refl, sym, ◌∙◌, ap, List,
  [], ◌∷◌, ◌++◌, length, take, drop, All, Bool-cases, inl, inr, take-append-drop, drop-drop,
  length-take, length-drop, take_of_length-le,
}
use eidetic_daemon.Engram.{Bytes, Engram}
use eidetic_daemon.Capture.Chunks.{chunk_total, chunk_payload, chunk, chunks_from, split_oversized}

-- The payloads, one after the other.
unfoldable pub reassemble : List Engram → Bytes
reassemble [] = []
reassemble (e ∷ es) = e.payload ++ reassemble es

drop_of_length-le : (n : ℕ) (xs : Bytes) → length xs ≤ n → drop n xs ≡ []
drop_of_length-le zero [] h = refl
drop_of_length-le zero (x ∷ xs) h = absurd (omega arith)
drop_of_length-le (suc n) [] h = refl
drop_of_length-le (suc n) (x ∷ xs) h = drop_of_length-le n xs (omega arith)

total_covers : (budget n : ℕ) → 0 < budget → n ≤ (n + budget - 1) / budget * budget
total_covers budget n h =
    grind (arith, div-add-mod (n + budget - 1) budget, mod-lt (n + budget - 1) h)

-- No chunk starts at or behind the end of the record.
total_tight : (budget n seq : ℕ) → 0 < budget → seq < (n + budget - 1) / budget → seq * budget < n
total_tight budget n seq h lt =
    grind (arith, div-add-mod (n + budget - 1) budget, mod-lt (n + budget - 1) h)

payload-take :
    (budget seq : ℕ) (raw : Bytes)
    → chunk_payload budget raw seq ≡ take budget (drop (seq * budget) raw)
unfolding chunk_payload
payload-take budget seq raw = elim (Bool-cases (ltb (length raw) (seq * budget + budget))) [
  | inl e ↦ rw e (
      take_of_length-le _ (drop (seq * budget) raw) (omega (arith, length-drop (seq * budget) raw))
      ∙ sym (
          take_of_length-le budget (drop (seq * budget) raw)
            (ground (arith, length-drop (seq * budget) raw))))
  | inr e ↦ rw e (ap (λ k. take k (drop (seq * budget) raw)) (omega arith))
]

module _ (budget : ℕ) (surface : String) (ts : ℤ) (path : String) (offset_end : ℕ)
    (chunk_id : Bytes → Bytes) (raw : Bytes) (positive : 0 < budget) where
  reassemble-chunks_from :
      (rounds seq : ℕ)
      → length raw ≤ (seq + rounds) * budget
      → reassemble (chunks_from budget surface ts path offset_end chunk_id raw seq rounds)
        ≡ drop (seq * budget) raw
  unfolding reassemble chunks_from chunk
  reassemble-chunks_from zero seq h = sym (drop_of_length-le (seq * budget) raw (grind arith))
  reassemble-chunks_from (suc rounds) seq h =
      let e : seq * budget + budget ≡ (seq + 1) * budget = grind arith in
      ap
        (λ l.
          l
          ++ reassemble
              (chunks_from budget surface ts path offset_end chunk_id raw (seq + 1) rounds))
        (payload-take budget seq raw)
      ∙ ap (λ l. take budget (drop (seq * budget) raw) ++ l)
          (reassemble-chunks_from rounds (seq + 1) (grind arith)
            ∙ ap (λ k. drop k raw) (sym e)
            ∙ drop-drop (seq * budget) budget raw)
      ∙ take-append-drop budget (drop (seq * budget) raw)

  abbrev Fits : Engram → Type 0
  Fits e = (0 < length e.payload) × (length e.payload ≤ budget)

  chunks_from-Fits :
      (rounds seq : ℕ)
      → seq + rounds ≤ chunk_total budget raw
      → All Fits (chunks_from budget surface ts path offset_end chunk_id raw seq rounds)
  unfolding chunks_from chunk chunk_total
  chunks_from-Fits zero seq h = tt
  chunks_from-Fits (suc rounds) seq h =
      let l = length-drop (seq * budget) raw in
      let t = total_tight budget (length raw) seq positive (omega arith) in
      (
        (
          rw (payload-take budget seq raw)
              (omega (arith, length-take budget (drop (seq * budget) raw))),
          rw (payload-take budget seq raw)
              (omega (arith, length-take budget (drop (seq * budget) raw))),
        ),
        chunks_from-Fits rounds (seq + 1) (omega arith),
      )

  abbrev split : List Engram
  split = split_oversized budget surface ts path offset_end chunk_id raw

  -- With a positive budget, the chunks' payloads one after the other are the record, and every chunk
  -- holds at least one byte and at most the budget.
  pub split_oversized_reassembles :
      (reassemble split ≡ raw)
      × All (λ e. (0 < length e.payload) × (length e.payload ≤ budget)) split
  unfolding split_oversized chunk_total
  split_oversized_reassembles =
      let zero-mul : 0 * budget ≡ 0 = omega arith in
      (
        reassemble-chunks_from (chunk_total budget raw) 0
              (let t = total_covers budget (length raw) positive in grind arith)
            ∙ ap (λ k. drop k raw) zero-mul,
        chunks_from-Fits (chunk_total budget raw) 0 (omega arith),
      )
