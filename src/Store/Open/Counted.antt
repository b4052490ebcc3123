-- ===== src/Store/Open/Counted.antt =====
-- The counters that the backfill of Open computes.
use eidetic_daemon.Prelude.{
  ℤ, pos, ◌+ℤ◌, arith, String, str_eq, eq_iff, ◌≡◌, refl, sym, ◌∙◌, ap, inl, inr, Bool-cases, false,
  List, [], ◌∷◌, ◌++◌, append_assoc, append-nil, length, All, All-append_right, count_p,
}
use eidetic_daemon.Store.Schema.{Row, Counts, count_insert}
use eidetic_daemon.Store.Read.{sum_counts, count_of}
use eidetic_daemon.Store.Counters.{on_surface, count_of-count_insert, sum_counts-count_insert}
use eidetic_daemon.Store.Open.{group_counts, put_count, put_counts}

-- No entry for the surface.
abbrev pub Lacks : String → Counts → Type 0
Lacks s = All (λ e. str_eq e.0 s ≡ false)

abbrev pub OnePerSurface : Counts → Type 0
OnePerSurface [] = Unit
OnePerSurface ((s, _) ∷ c) = Lacks s c × OnePerSurface c

count_insert-Lacks :
    (s t : String) (c : Counts) → str_eq s t ≡ false → Lacks t c → Lacks t (count_insert s c)
unfolding count_insert
count_insert-Lacks s t [] e h = (e, tt)
count_insert-Lacks s t ((u, n) ∷ c) e h = elim (Bool-cases (str_eq u s)) [
  | inl same ↦ rw (same, count_insert) h
  | inr other ↦ rw (other, count_insert) (h.0, count_insert-Lacks s t c e h.1)
]

count_insert-OnePerSurface :
    (s : String) (c : Counts) → OnePerSurface c → OnePerSurface (count_insert s c)
unfolding count_insert
count_insert-OnePerSurface s [] h = (tt, tt)
count_insert-OnePerSurface s ((u, n) ∷ c) h = elim (Bool-cases (str_eq u s)) [
  | inl same ↦ rw (same, count_insert) h
  | inr other ↦
      let apart : str_eq s u ≡ false = ground (arith, other, eq_iff u s, eq_iff s u) in
      rw (other, count_insert)
        (count_insert-Lacks s u c apart h.0, count_insert-OnePerSurface s c h.1)
]

pub group_counts-OnePerSurface : (rows : List Row) → OnePerSurface (group_counts rows)
unfolding group_counts
group_counts-OnePerSurface [] = tt
group_counts-OnePerSurface (r ∷ rows) =
    count_insert-OnePerSurface r.surface (group_counts rows) (group_counts-OnePerSurface rows)

put_count-Lacks : (s : String) (n : ℤ) (c : Counts) → Lacks s c → put_count s n c ≡ c ++ (s, n) ∷ []
unfolding put_count
put_count-Lacks s n [] h = refl
put_count-Lacks s n ((t, m) ∷ c) h = rw h.0 (ap (◌∷◌ (t, m)) (put_count-Lacks s n c h.1))

Lacks-before : (s : String) (n : ℤ) (c new : Counts) → OnePerSurface (c ++ (s, n) ∷ new) → Lacks s c
Lacks-before s n [] new h = tt
Lacks-before s n ((u, m) ∷ c) new h =
    let later = All-append_right (λ e. str_eq e.0 u ≡ false) c ((s, n) ∷ new) h.0 in
    (ground (arith, later.0, eq_iff u s, eq_iff s u), Lacks-before s n c new h.1)

-- An upsert of entries of which none is there appends them.
pub put_counts-append : (new c : Counts) → OnePerSurface (c ++ new) → put_counts new c ≡ c ++ new
unfolding put_counts
put_counts-append [] c h = sym (append-nil c)
put_counts-append ((s, n) ∷ new) c h =
    let assoc = append_assoc c ((s, n) ∷ []) new in
    rw (put_count-Lacks s n c (Lacks-before s n c new h))
      (put_counts-append new (c ++ (s, n) ∷ []) (rw assoc h) ∙ assoc)

abbrev pub IsCounted : List Row → Counts → Type 0
IsCounted rows c =
    ((s : String) → count_of s c ≡ pos (count_p (on_surface s) rows))
    × (sum_counts c ≡ pos (length rows))

pub group_counts-IsCounted : (rows : List Row) → IsCounted rows (group_counts rows)
unfolding group_counts count_of sum_counts ◌+ℤ◌
group_counts-IsCounted [] = (λ s. refl, refl)
group_counts-IsCounted (r ∷ rows) =
    let (counted, total) = group_counts-IsCounted rows in
    (
      λ s. ground (arith, count_of-count_insert s r.surface (group_counts rows), counted s),
      ground (arith, sum_counts-count_insert r.surface (group_counts rows), total),
    )
