-- ===== src/Api/Latency/Recent.antt =====
-- The ring holds the last samples.
use eidetic_daemon.Prelude.{
  ℕ, zero, suc, ◌+◌, ◌-◌, ◌≤◌, ◌<◌, ◌==◌, leb, ltb, arith, ◌≡◌, refl, sym, ◌∙◌, ap, ap₂, Bool-cases,
  inl, inr, false, List, [], ◌∷◌, ◌++◌, append_assoc, append-nil, drop-append, drop-drop, SameItems,
  count_p, count_p-append, length, length-append, length-take, length-drop, take, drop, replicate,
  take-append-drop, if◌then◌else◌,
}
use eidetic_daemon.Api.Latency.{
  LatencyTracker, new_latency_tracker, put_at, record_sample, samples, count_samples,
}

module _ {A : Type 0} where
  -- The last `n` of a list.
  abbrev pub last_n : ℕ → List A → List A
  last_n n xs = drop (length xs - n) xs

  -- The samples in the order in which they came.
  abbrev pub in_order : LatencyTracker A → List A
  in_order t = if t.filled then drop t.head t.buf ++ take t.head t.buf else take t.head t.buf

  abbrev pub IsRing : LatencyTracker A → Type 0
  IsRing t = (0 < t.cap) × (length t.buf ≡ t.cap) × (t.head < t.cap)

  length-put_at : (i : ℕ) (x : A) (ys : List A) → length (put_at i x ys) ≡ length ys
  unfolding put_at
  length-put_at i x [] = refl
  length-put_at zero x (y ∷ ys) = refl
  length-put_at (suc i) x (y ∷ ys) = ap suc (length-put_at i x ys)

  take-put_at :
      (i : ℕ) (x : A) (ys : List A)
      → i < length ys
      → take (suc i) (put_at i x ys) ≡ take i ys ++ x ∷ []
  unfolding put_at
  take-put_at i x [] h = absurd (omega arith)
  take-put_at zero x (y ∷ ys) h = refl
  take-put_at (suc i) x (y ∷ ys) h = ap (◌∷◌ y) (take-put_at i x ys (omega arith))

  drop-put_at : (i : ℕ) (x : A) (ys : List A) → drop (suc i) (put_at i x ys) ≡ drop (suc i) ys
  unfolding put_at
  drop-put_at i x [] = refl
  drop-put_at zero x (y ∷ ys) = refl
  drop-put_at (suc i) x (y ∷ ys) = drop-put_at i x ys

  drop-one :
      (i : ℕ) (ys zs : List A) → i < length ys → drop 1 (drop i ys ++ zs) ≡ drop (suc i) ys ++ zs
  drop-one i [] zs h = absurd (omega arith)
  drop-one zero (y ∷ ys) zs h = refl
  drop-one (suc i) (y ∷ ys) zs h = drop-one i ys zs (omega arith)

  drop-all : (n : ℕ) (xs : List A) → length xs ≤ n → drop n xs ≡ []
  drop-all zero [] h = refl
  drop-all zero (x ∷ xs) h = absurd (omega arith)
  drop-all (suc n) [] h = refl
  drop-all (suc n) (x ∷ xs) h = drop-all n xs (omega arith)

  record_sample-IsRing : (x : A) (t : LatencyTracker A) → IsRing t → IsRing (record_sample x t)
  unfolding record_sample
  record_sample-IsRing x t (some_room, full, within) =
      let len = length-put_at t.head x t.buf in
      let room : (t.cap == 0) ≡ false = ground arith in
      elim (Bool-cases (leb t.cap (t.head + 1))) [
        | inl e ↦ rw (room, e) (some_room, omega arith, some_room)
        | inr e ↦ rw (room, e) (some_room, omega arith, ground (arith, e))
      ]

  length-in_order : (t : LatencyTracker A) → IsRing t → length (in_order t) ≡ count_samples t
  unfolding count_samples
  length-in_order t (some_room, full, within) =
      let taken = length-take t.head t.buf in
      let dropped = length-drop t.head t.buf in
      let both = length-append (drop t.head t.buf) (take t.head t.buf) in
      elim (Bool-cases t.filled) [ inl e ↦ rw e (omega arith) | inr e ↦ rw e (omega arith) ]

  -- A full ring forgets its oldest sample, and one that is not full forgets none.
  last_n-full :
      (x : A) (head : ℕ) (buf : List A)
      → head < length buf
      → last_n (length buf) ((drop head buf ++ take head buf) ++ x ∷ [])
        ≡ drop (suc head) buf ++ (take head buf ++ x ∷ [])
  last_n-full x head buf within =
      let taken = length-take head buf in
      let dropped = length-drop head buf in
      let both = length-append (drop head buf) (take head buf) in
      let whole = length-append (drop head buf ++ take head buf) (x ∷ []) in
      let one : length ((drop head buf ++ take head buf) ++ x ∷ []) - length buf ≡ 1 =
        omega arith in
      rw one (
        ap (drop 1) (append_assoc (drop head buf) (take head buf) (x ∷ []))
        ∙ drop-one head buf (take head buf ++ x ∷ []) within)

  last_n-room :
      (x : A) (head : ℕ) (buf : List A)
      → head < length buf
      → last_n (length buf) (take head buf ++ x ∷ []) ≡ take head buf ++ x ∷ []
  last_n-room x head buf within =
      let taken = length-take head buf in
      let whole = length-append (take head buf) (x ∷ []) in
      let none_over : length (take head buf ++ x ∷ []) - length buf ≡ 0 = omega arith in
      rw none_over refl

  put_at-last :
      (x : A) (head : ℕ) (buf : List A)
      → suc head ≡ length buf
      → put_at head x buf ≡ take head buf ++ x ∷ []
  put_at-last x head buf last =
      sym (take-append-drop (suc head) (put_at head x buf))
      ∙ ap₂ ◌++◌ (take-put_at head x buf (omega arith))
          (drop-put_at head x buf ∙ drop-all (suc head) buf (omega arith))
      ∙ append-nil _

  record_sample-in_order :
      (x : A) (t : LatencyTracker A)
      → IsRing t
      → in_order (record_sample x t) ≡ last_n t.cap (in_order t ++ x ∷ [])
  unfolding record_sample
  record_sample-in_order x t (some_room, full, within) =
      let room : (t.cap == 0) ≡ false = ground arith in
      let inside : t.head < length t.buf = omega arith in
      let next : t.head + 1 ≡ suc t.head = omega arith in
      elim (Bool-cases (leb t.cap (t.head + 1))) [
        | inl e ↦
            let last : suc t.head ≡ length t.buf = ground (arith, e) in
            let put = put_at-last x t.head t.buf last in
            elim (Bool-cases t.filled) [
              | inl f ↦
                  rw (room, e, f, sym full)
                    (append-nil _
                      ∙ put
                      ∙ ap (λ l. l ++ (take t.head t.buf ++ x ∷ []))
                          (sym (drop-all (suc t.head) t.buf (omega arith)))
                      ∙ sym (last_n-full x t.head t.buf inside))
              | inr f ↦
                  rw (room, e, f, sym full)
                    (append-nil _ ∙ put ∙ sym (last_n-room x t.head t.buf inside))
            ]
        | inr e ↦ elim (Bool-cases t.filled) [
          | inl f ↦
              rw (room, e, f, sym full, next)
                (ap₂ ◌++◌ (drop-put_at t.head x t.buf) (take-put_at t.head x t.buf inside)
                  ∙ sym (last_n-full x t.head t.buf inside))
          | inr f ↦
              rw (room, e, f, sym full, next)
                (take-put_at t.head x t.buf inside ∙ sym (last_n-room x t.head t.buf inside))
        ]
      ]

  last_n-last_n :
      (n : ℕ) (ys : List A) (x : A) → last_n n (last_n n ys ++ x ∷ []) ≡ last_n n (ys ++ x ∷ [])
  last_n-last_n n ys x =
      let k = length ys - n in
      let longer = length-append ys (x ∷ []) in
      let tail = length-append (drop k ys) (x ∷ []) in
      let shorter = length-drop k ys in
      ap (drop (length (drop k ys ++ x ∷ []) - n)) (sym (drop-append k ys (x ∷ []) (omega arith)))
      ∙ sym (drop-drop k (length (drop k ys ++ x ∷ []) - n) (ys ++ x ∷ []))
      ∙ ap (λ j. drop j (ys ++ x ∷ []))
          (let sum : k + (length (drop k ys ++ x ∷ []) - n) ≡ length (ys ++ x ∷ []) - n =
              omega arith in
            sum)

  abbrev pub record_all : List A → LatencyTracker A → LatencyTracker A
  record_all [] t = t
  record_all (x ∷ xs) t = record_all xs (record_sample x t)

  cap-record_sample : (x : A) (t : LatencyTracker A) → (record_sample x t).cap ≡ t.cap
  unfolding record_sample
  cap-record_sample x t = elim (Bool-cases (t.cap == 0)) [
    | inl e ↦ rw e refl
    | inr e ↦ elim (Bool-cases (leb t.cap (t.head + 1))) [
      | inl f ↦ rw (e, f) refl
      | inr f ↦ rw (e, f) refl
    ]
  ]

  record_all-in_order :
      (xs ys : List A) (t : LatencyTracker A)
      → IsRing t
      → in_order t ≡ last_n t.cap ys
      → in_order (record_all xs t) ≡ last_n t.cap (ys ++ xs)
  record_all-in_order [] ys t ring h = h ∙ ap (last_n t.cap) (sym (append-nil ys))
  record_all-in_order (x ∷ xs) ys t ring h =
      let same = cap-record_sample x t in
      let step =
        record_sample-in_order x t ring
        ∙ ap (λ l. last_n t.cap (l ++ x ∷ [])) h
        ∙ last_n-last_n t.cap ys x
        ∙ ap (λ n. last_n n (ys ++ x ∷ [])) (sym same) in
      record_all-in_order xs (ys ++ x ∷ []) (record_sample x t) (record_sample-IsRing x t ring) step
      ∙ ap₂ last_n same (append_assoc ys (x ∷ []) xs)

  length-replicate : (n : ℕ) (x : A) → length (replicate n x) ≡ n
  length-replicate zero x = refl
  length-replicate (suc n) x = ap suc (length-replicate n x)

  samples-in_order : (t : LatencyTracker A) → SameItems (samples t) (in_order t)
  unfolding samples
  samples-in_order t p = elim (Bool-cases t.filled) [
    | inl e ↦
        let rotated = count_p-append p (drop t.head t.buf) (take t.head t.buf) in
        let whole = count_p-append p (take t.head t.buf) (drop t.head t.buf) in
        let same = ap (count_p p) (take-append-drop t.head t.buf) in rw (e, samples) (omega arith)
    | inr e ↦ elim (Bool-cases (ltb 0 t.head)) [
      | inl f ↦ rw (e, f, samples) refl
      | inr f ↦ let z : t.head ≡ 0 = ground (arith, f) in rw (e, f, samples, z) refl
    ]
  ]

  record_all-IsRing : (xs : List A) (t : LatencyTracker A) → IsRing t → IsRing (record_all xs t)
  record_all-IsRing [] t ring = ring
  record_all-IsRing (x ∷ xs) t ring =
      record_all-IsRing xs (record_sample x t) (record_sample-IsRing x t ring)

  -- With a positive capacity, the samples from which percentiles are computed are, but for their order,
  -- the most recent ones recorded, as many as the capacity holds, and Count is their number.
  pub samples-last_n :
      (nothing : A) (capacity : ℕ) (xs : List A)
      → 0 < capacity
      → let t = record_all xs (new_latency_tracker nothing capacity) in
        SameItems (samples t) (last_n capacity xs) × (count_samples t ≡ length (last_n capacity xs))
  samples-last_n nothing capacity xs positive =
      let new = new_latency_tracker nothing capacity in
      let ring : IsRing new = (positive, length-replicate capacity nothing, positive) in
      let none_yet : in_order new ≡ last_n capacity [] =
        sym (drop-all (0 - capacity) [] (omega arith)) in
      let recent = record_all-in_order xs [] new ring none_yet in
      (
        λ p. samples-in_order (record_all xs new) p ∙ ap (count_p p) recent,
        sym (length-in_order (record_all xs new) (record_all-IsRing xs new ring))
            ∙ ap length recent,
      )
