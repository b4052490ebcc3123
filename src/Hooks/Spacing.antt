-- ===== src/Hooks/Spacing.antt =====
-- How far apart the decisions to fire a hook are.
use eidetic_daemon.Prelude.{
  ℕ, ℤ, pos, negsuc, ◌*◌, wrap_64_exact, All, ◌-ℤ◌, ◌≤ℤ◌, ltb_ℤ, arith, ◌≡◌, refl, sym, ap, ◌∙◌,
  subst, Bool-cases, inl, inr, true, false, Option, none, some, List, [], ◌∷◌, ◌++◌,
}
use eidetic_daemon.Engram.{Engram}
use eidetic_daemon.Store.Engine.{Engine}
use eidetic_daemon.Store.Session.{Result, ok, err, Session}
use eidetic_daemon.Store.Write.{insert_batch}
use eidetic_daemon.TextSearch.{Text}
use eidetic_daemon.Dict.{Dict, lookup, put}
use eidetic_daemon.Hooks.{
  HookSpec, Dispatcher, Fired, matches, min_interval, seconds, waited, can_fire, fire, each_hook,
  maybe, maybe_all, after_sink, hooked_insert_batch,
}

-- Batch after batch through the sink.
unfoldable pub insert_all :
    (ℕ → ℤ)
    → (Text → Text)
    → Engine
    → List (List Engram)
    → Session
    → Dispatcher
    → List Fired × Session
unfolding hooked_insert_batch
insert_all clock to_lower engine [] s d = ([], s)
insert_all clock to_lower engine (batch ∷ batches) s d =
    let (_, s', fired, d') = hooked_insert_batch clock to_lower engine batch s d in
    let (more, s'') = insert_all clock to_lower engine batches s' d' in (fired ++ more, s'')

-- The same without hooks.
unfoldable pub insert_plain : Engine → List (List Engram) → Session → Session
insert_plain engine [] s = s
insert_plain engine (batch ∷ batches) s =
    insert_plain engine batches (insert_batch engine batch s).1

-- What a hook asks for, in nanoseconds.
abbrev pub configured : HookSpec → ℤ
configured h = elim h.min_interval_sec [ pos n ↦ pos (n * 1000000000) | negsuc n ↦ pos 0 ]

-- The seconds of a hook fit a time.Duration.
abbrev pub IsSmall : HookSpec → Type 0
IsSmall h = h.min_interval_sec ≤ℤ pos 9223372036

min_interval-configured :
    (h : HookSpec)
    → IsSmall h
    → ltb_ℤ (pos 0) h.min_interval_sec ≡ true
    → min_interval h ≡ configured h
min_interval-configured h small limited = by_sign h.min_interval_sec small limited
  where
    by_sign :
        (m : ℤ)
        → m ≤ℤ pos 9223372036
        → ltb_ℤ (pos 0) m ≡ true
        → seconds m ≡ (elim m as (λ _. ℤ) [ pos n ↦ pos (n * 1000000000) | negsuc n ↦ pos 0 ])
    by_sign (pos n) h k = wrap_64_exact (n * 1000000000) (omega arith)
    by_sign (negsuc n) h k = absurd (ground arith)

abbrev pub WaitsFor : ℤ → Option ℤ → ℤ → Type 0
WaitsFor interval none now = Unit
WaitsFor interval (some last) now = interval ≤ℤ (now -ℤ last)

-- A decision without a time is one for a hook without a limit.
abbrev pub Gap : HookSpec → Option ℤ → Dict ℤ → Type 0
Gap h none last = ltb_ℤ (pos 0) h.min_interval_sec ≡ false
Gap h (some now) last = WaitsFor (configured h) (lookup h.name last) now

abbrev pub kept : HookSpec → Option ℤ → Dict ℤ → Dict ℤ
kept h none last = last
kept h (some now) last = put h.name now last

unfoldable pub kept_all : List Fired → Dict ℤ → Dict ℤ
kept_all [] last = last
kept_all (f ∷ fs) last = kept_all fs (kept f.hook f.limited last)

-- Each decision for a hook with a limit comes at least the hook's seconds after the last one for a hook
-- of that name with a limit.
abbrev pub Spaced : Dict ℤ → List Fired → Type 0
Spaced last [] = Unit
Spaced last (f ∷ fs) = Gap f.hook f.limited last × Spaced (kept f.hook f.limited last) fs

record Follows (d : Dispatcher) (fired : List Fired) (d' : Dispatcher) : Type 0 where
  spaced : Spaced d.last_at fired
  keeps : d'.last_at ≡ kept_all fired d.last_at
  same_hooks : d'.hooks ≡ d.hooks

Spaced-append :
    (last : Dict ℤ) (xs ys : List Fired)
    → Spaced last xs
    → Spaced (kept_all xs last) ys
    → Spaced last (xs ++ ys)
unfolding kept_all
Spaced-append last [] ys h k = k
Spaced-append last (f ∷ xs) ys h k = (h.0, Spaced-append (kept f.hook f.limited last) xs ys h.1 k)

kept_all-append :
    (xs ys : List Fired) (last : Dict ℤ) → kept_all (xs ++ ys) last ≡ kept_all ys (kept_all xs last)
unfolding kept_all
kept_all-append [] ys last = refl
kept_all-append (f ∷ xs) ys last = kept_all-append xs ys (kept f.hook f.limited last)

Follows-append :
    (d d' d'' : Dispatcher) (xs ys : List Fired)
    → Follows d xs d'
    → Follows d' ys d''
    → Follows d (xs ++ ys) d''
Follows-append d d' d'' xs ys h k = record {
  spaced = Spaced-append d.last_at xs ys h.spaced (subst (λ last. Spaced last ys) h.keeps k.spaced);
  keeps = k.keeps ∙ ap (kept_all ys) h.keeps ∙ sym (kept_all-append xs ys d.last_at);
  same_hooks = k.same_hooks ∙ h.same_hooks;
}

Follows-none : (d : Dispatcher) → Follows d [] d
unfolding kept_all
Follows-none d = record { spaced = tt; keeps = refl; same_hooks = refl }

waited-WaitsFor :
    (interval now : ℤ) (last : Option ℤ)
    → waited interval last now ≡ true
    → WaitsFor interval last now
waited-WaitsFor interval now none h = tt
waited-WaitsFor interval now (some last) h = ground arith

module _ (clock : ℕ → ℤ) where
  can_fire-Follows :
      (h : HookSpec) (e : Engram) (d : Dispatcher)
      → IsSmall h
      → let (decision, d') = can_fire clock h d in Follows d (fire clock h e decision) d'
  unfolding can_fire kept_all
  can_fire-Follows h e d small = elim (Bool-cases (ltb_ℤ (pos 0) h.min_interval_sec)) [
    | inr f ↦ simp (f, can_fire) (record { spaced = (f, tt); keeps = refl; same_hooks = refl })
    | inl f ↦
        elim (Bool-cases (waited (min_interval h) (lookup h.name d.last_at) (clock d.reads))) [
          | inl g ↦
              simp (f, g, can_fire)
                (record {
                  spaced = (
                    subst (λ gap. WaitsFor gap (lookup h.name d.last_at) (clock d.reads))
                        (min_interval-configured h small f)
                        (waited-WaitsFor (min_interval h) (clock d.reads) (lookup h.name d.last_at)
                          g),
                    tt,
                  );
                  keeps = refl;
                  same_hooks = refl;
                })
          | inr g ↦ simp (f, g, can_fire) (record { spaced = tt; keeps = refl; same_hooks = refl })
        ]
  ]

  module _ (to_lower : Text → Text) where
    each_hook-Follows :
        (e : Engram) (hs : List HookSpec) (d : Dispatcher)
        → All IsSmall hs
        → let (fired, d') = each_hook clock to_lower e hs d in Follows d fired d'
    unfolding each_hook
    each_hook-Follows e [] d small = Follows-none d
    each_hook-Follows e (h ∷ hs) d small = elim (Bool-cases (matches to_lower d e h)) [
      | inl f ↦
          let d' = (can_fire clock h d).1 in
          simp (f, each_hook)
            (Follows-append d d' _ (fire clock h e (can_fire clock h d).0) _
              (can_fire-Follows h e d small.0) (each_hook-Follows e hs d' small.1))
      | inr f ↦ simp (f, each_hook) (each_hook-Follows e hs d small.1)
    ]

    maybe_all-Follows :
        (es : List Engram) (d : Dispatcher)
        → All IsSmall d.hooks
        → let (fired, d') = maybe_all clock to_lower es d in Follows d fired d'
    unfolding maybe_all maybe
    maybe_all-Follows [] d small = Follows-none d
    maybe_all-Follows (e ∷ es) d small =
        let d' = (maybe clock to_lower e d).1 in
        let first = each_hook-Follows e d.hooks d small in
        Follows-append d d' _ _ _ first
          (maybe_all-Follows es d' (subst (All IsSmall) (sym first.same_hooks) small))

    after_sink-Follows :
        (batch : List Engram) (r : Result (Unit {0}) × Session) (d : Dispatcher)
        → All IsSmall d.hooks
        → let (_, s, fired, d') = after_sink clock to_lower batch r d in
          Follows d fired d' × (s ≡ r.1)
    after_sink-Follows batch (err e, s) d small = (Follows-none d, refl)
    after_sink-Follows batch (ok _, s) d small = (maybe_all-Follows batch d small, refl)

    -- Whichever statements of the store fail and whatever the clock reads, batches that go through the
    -- sink with hooks leave the store as they would without; and each decision to fire a hook with a
    -- limit comes at least the hook's seconds after the last decision for a hook of that name with a
    -- limit, when no hook asks for more than 9,223,372,036 seconds, beyond which their nanoseconds
    -- wrap around.
    pub insert_all-Spaced :
        (engine : Engine) (batches : List (List Engram)) (s : Session) (d : Dispatcher)
        → All IsSmall d.hooks
        → let (fired, s') = insert_all clock to_lower engine batches s d in
          Spaced d.last_at fired × (s' ≡ insert_plain engine batches s)
    unfolding insert_all insert_plain hooked_insert_batch
    insert_all-Spaced engine [] s d small = (tt, refl)
    insert_all-Spaced engine (batch ∷ batches) s d small =
        let out = hooked_insert_batch clock to_lower engine batch s d in
        let (follows, same) = after_sink-Follows batch (insert_batch engine batch s) d small in
        let (spaced, stored) =
          insert_all-Spaced engine batches out.1 out.3
            (subst (All IsSmall) (sym follows.same_hooks) small) in
        let more = (insert_all clock to_lower engine batches out.1 out.3).0 in
        (
          Spaced-append d.last_at out.2 more follows.spaced
              (subst (λ last. Spaced last more) follows.keeps spaced),
          stored ∙ ap (insert_plain engine batches) same,
        )
