-- ===== src/Store/Counters.antt =====
-- What the count triggers of schema.sql do to one counter and to the sum of all.
use eidetic_daemon.Prelude.{
  ℕ, suc, ◌-◌, ◌≤◌, ◌<◌, pos, ◌+ℤ◌, ◌-ℤ◌, int_laws, arith, String, str_eq, eq_iff, ◌≡◌, ◌∙◌, ap,
  eq_refl, Bool, Bool-cases, inl, inr, List, [], ◌∷◌, length, count_p, if◌then◌else◌,
}
use eidetic_daemon.Store.Schema.{Row, Counts, count_insert, count_delete, uncount}
use eidetic_daemon.Store.Read.{sum_counts, count_of}

abbrev pub on_surface : String → Row → Bool
on_surface s r = str_eq r.surface s

pub count_of-count_insert :
    (s t : String) (c : Counts)
    → count_of s (count_insert t c) ≡ (if str_eq t s then count_of s c +ℤ pos 1 else count_of s c)
unfolding count_of count_insert ◌+ℤ◌
count_of-count_insert s t [] = ground (arith, eq_iff t s)
count_of-count_insert s t ((u, n) ∷ c) =
    ground (arith, eq_iff t s, eq_iff u s, eq_iff u t, count_of-count_insert s t c)

pub sum_counts-count_insert :
    (t : String) (c : Counts) → sum_counts (count_insert t c) ≡ sum_counts c +ℤ pos 1
unfolding sum_counts count_insert
sum_counts-count_insert t [] = omega int_laws
sum_counts-count_insert t ((u, n) ∷ c) = elim (Bool-cases (str_eq u t)) [
  | inl e ↦ rw e (omega int_laws)
  | inr e ↦ rw (e, sum_counts-count_insert t c) (omega int_laws)
]

-- A counter that is not 0 has a row in the counter table.
pub count_of-count_delete :
    (s t : String) (c : Counts) (k : ℕ)
    → count_of t c ≡ pos (suc k)
    → count_of s (count_delete t c) ≡ (if str_eq t s then count_of s c -ℤ pos 1 else count_of s c)
unfolding count_of count_delete
count_of-count_delete s t [] k h = cc
count_of-count_delete s t ((u, n) ∷ c) k h =
    ground (arith, eq_iff t s, eq_iff u s, eq_iff u t, count_of-count_delete s t c k)

pub sum_counts-count_delete :
    (t : String) (c : Counts) (k : ℕ)
    → count_of t c ≡ pos (suc k)
    → sum_counts (count_delete t c) ≡ sum_counts c -ℤ pos 1
unfolding count_of sum_counts count_delete
sum_counts-count_delete t [] k h = cc
sum_counts-count_delete t ((u, n) ∷ c) k h = elim (Bool-cases (str_eq u t)) [
  | inl e ↦ rw e (omega int_laws)
  | inr e ↦ rw (e, sum_counts-count_delete t c k (rw e at h)) (omega int_laws)
]

pos_sub : (m n : ℕ) → n ≤ m → pos m -ℤ pos n ≡ pos (m - n)
pos_sub m n h = omega int_laws

-- One delete takes one from the counter of its surface.
module _ (r : Row) (c : Counts) (n : String → ℕ) (h : (t : String) → count_of t c ≡ pos (n t)) where
  abbrev one_less : String → ℕ
  one_less t = if str_eq r.surface t then n t - 1 else n t

  count_of-one_less :
      0 < n r.surface → (t : String) → count_of t (count_delete r.surface c) ≡ pos (one_less t)
  count_of-one_less lt t = ground (
    arith,
    count_of-count_delete t r.surface c (n r.surface - 1),
    h r.surface,
    h t,
    eq_iff r.surface t,
    pos_sub (n t) 1,
  )

-- Deletes take away, at each surface, the number of deleted rows on it.
pub count_of-uncount :
    (rs : List Row) (c : Counts) (n : String → ℕ)
    → ((t : String) → count_of t c ≡ pos (n t))
    → ((t : String) → count_p (on_surface t) rs ≤ n t)
    → (s : String) → count_of s (uncount rs c) ≡ pos (n s - count_p (on_surface s) rs)
unfolding uncount
count_of-uncount [] c n h le s = rw h (ap pos (omega arith))
count_of-uncount (r ∷ rs) c n h le s =
    let lt : 0 < n r.surface = ground (arith, le r.surface, eq_refl r.surface) in
    count_of-uncount rs (count_delete r.surface c) (one_less r c n h) (count_of-one_less r c n h lt)
      (λ t. ground (arith, le t, eq_iff r.surface t)) s
    ∙ ap pos (ground arith)

-- The sum goes down by the number of deleted rows.
pub sum_counts-uncount :
    (rs : List Row) (c : Counts) (n : String → ℕ) (total : ℕ)
    → ((t : String) → count_of t c ≡ pos (n t))
    → ((t : String) → count_p (on_surface t) rs ≤ n t)
    → sum_counts c ≡ pos total
    → length rs ≤ total
    → sum_counts (uncount rs c) ≡ pos (total - length rs)
unfolding uncount
sum_counts-uncount [] c n total h le e bound = e ∙ ap pos (omega arith)
sum_counts-uncount (r ∷ rs) c n total h le e bound =
    let lt : 0 < n r.surface = ground (arith, le r.surface, eq_refl r.surface) in
    sum_counts-uncount rs (count_delete r.surface c) (one_less r c n h) (total - 1)
      (count_of-one_less r c n h lt) (λ t. ground (arith, le t, eq_iff r.surface t))
      (ground (
        arith,
        sum_counts-count_delete r.surface c (n r.surface - 1),
        h r.surface,
        pos_sub total 1,
      ))
      (omega arith)
    ∙ ap pos (omega arith)
