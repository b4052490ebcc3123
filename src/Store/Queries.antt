-- ===== src/Store/Queries.antt =====
-- Retrieve, Recent and RetrieveAfter: which rows a query answers with.
use Prim.Native.Nat.{min}
use eidetic_daemon.Prelude.{
  ℕ, ◌≤◌, ℤ, ltb_ℤ, arith, String, str_eq, ◌≡◌, refl, sym, ◌∙◌, ap, subst, fun_ext, Bool, false,
  not, ◌&&◌, ◌||◌, Bool-cases, inl, inr, List, ◌++◌, map, length, take, drop, filter, count_p,
  SameItems, take-append-drop, length-take, length-SameItems, if◌then◌else◌,
}
use eidetic_daemon.Store.Schema.{Row, Db}
use eidetic_daemon.Store.Engine.{Engine, Order, ts_asc, ts_desc, IsOrdered}
use eidetic_daemon.Store.Session.{ok, statement, query}
use eidetic_daemon.Store.Read.{
  surface_is, ts_above, ts_below, where_, is_set, retrieve_clauses, to_engram, clamp_limit,
  retrieve, recent,
}
use eidetic_daemon.Store.Clauses.{part, where-only_if, where-only_if_last}
use eidetic_daemon.Store.Lookup.{quiet}

-- A limit is at least 1 and at most the cap.
pub clamp_limit_bounds :
    (cap : ℕ) (limit : ℤ) → 50 ≤ cap → (1 ≤ clamp_limit cap limit) × (clamp_limit cap limit ≤ cap)
unfolding clamp_limit
clamp_limit_bounds cap limit h = ground arith

-- The surface, if one is named, and the open interval between the bounds that are set.
unfoldable pub in_window : String → ℤ → ℤ → Row → Bool
in_window surface since before r =
    (str_eq surface "" || str_eq r.surface surface)
    && ((not (is_set since) || ltb_ℤ since r.ts) && (not (is_set before) || ltb_ℤ r.ts before))

where-in_window :
    (surface : String) (since before : ℤ) (r : Row)
    → where_ (retrieve_clauses surface since before) r ≡ in_window surface since before r
unfolding in_window
where-in_window surface since before r =
    where-only_if (not (str_eq surface "")) (surface_is surface) _ r
    ∙ ap (λ b. part (not (str_eq surface "")) (surface_is surface) r && b)
        (where-only_if (is_set since) (ts_above since) _ r
          ∙ ap (λ b. part (is_set since) (ts_above since) r && b)
              (where-only_if_last (is_set before) (ts_below before) r))
    ∙ ground arith

-- The answer of a sorted query with a limit: the first `limit` of the rows, in some arrangement of
-- them all that is in order. So no row left out comes strictly before one that is returned.
pub record IsAnswer (o : Order) (limit : ℕ) (rows out rest : List Row) : Type 0 where
  pub ordered : IsOrdered o (out ++ rest)
  pub same : SameItems (out ++ rest) rows
  pub size : length out ≡ min limit (length rows)

module _ (engine : Engine) where
  first-IsAnswer :
      (o : Order) (limit : ℕ) (rows : List Row)
      → IsAnswer o limit rows
          (take limit (engine.order_by o rows))
          (drop limit (engine.order_by o rows))
  first-IsAnswer o limit rows =
      let sorted = engine.order_by o rows in
      record {
        ordered =
            subst (IsOrdered o) (sym (take-append-drop limit sorted))
              (engine.order_by_ordered o rows);
        same = λ p. ap (count_p p) (take-append-drop limit sorted) ∙ engine.order_by_same o rows p;
        size =
            length-take limit sorted
            ∙ ap (min limit) (length-SameItems sorted rows (engine.order_by_same o rows));
      }

  -- When its query does not fail, `Retrieve` answers with the first rows of the surface and the
  -- window, by ts in the direction asked for, as many as the clamped limit allows.
  pub retrieve-IsAnswer :
      (surface : String) (since before limit : ℤ) (asc : Bool) (db : Db)
      → (out rest : List Row) × (retrieve engine surface since before limit asc (quiet db)
          ≡ (ok (map to_engram out), quiet db))
        × IsAnswer
            (if asc then ts_asc else ts_desc)
            (clamp_limit 500 limit)
            (filter (in_window surface since before) db.engrams)
            out
            rest
  unfolding retrieve query statement
  retrieve-IsAnswer surface since before limit asc db =
      let o : Order = if asc then ts_asc else ts_desc in
      let rows = filter (in_window surface since before) db.engrams in
      let k = clamp_limit 500 limit in
      (
        take k (engine.order_by o rows),
        drop k (engine.order_by o rows),
        ap (λ w. (ok (map to_engram (take k (engine.order_by o (filter w db.engrams)))), quiet db))
            (fun_ext (where-in_window surface since before)),
        first-IsAnswer o k rows,
      )

  -- `Recent` is `Retrieve` across all surfaces, newest first.
  pub recent-eq-retrieve :
      (since before limit : ℤ)
      → recent engine since before limit ≡ retrieve engine "" since before limit false
  unfolding recent retrieve
  recent-eq-retrieve since before limit = elim (Bool-cases (is_set since)) [
    | inl f ↦ elim (Bool-cases (is_set before)) [ inl g ↦ rw (f, g) refl | inr g ↦ rw (f, g) refl ]
    | inr f ↦ elim (Bool-cases (is_set before)) [ inl g ↦ rw (f, g) refl | inr g ↦ rw (f, g) refl ]
  ]
