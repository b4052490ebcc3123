-- ===== src/Sync/Upload/Spacing.antt =====
-- How far apart the uploads of the polls are.
use eidetic_daemon.Prelude.{
  ℤ, pos, negsuc, zero, suc, ◌*◌, ltb_ℤ, wrap_64_exact, if◌then◌else◌, ◌-ℤ◌, ◌≤ℤ◌, eqb_ℤ, arith,
  ◌≡◌, ◌⊎◌, ap, refl, sym, subst, Bool-cases, Option-cases, inl, inr, true, false, Option, none,
  some, List, [], ◌∷◌,
}
use eidetic_daemon.TextSearch.{Text}
use eidetic_daemon.Files.{Files}
use eidetic_daemon.Store.Session.{Session}
use eidetic_daemon.Store.Session
use eidetic_daemon.Store.Read.{count}
use eidetic_daemon.Sync.{Config, Json, Result, ok, err, row_count, Error}
use eidetic_daemon.Sync.Upload.{
  Attempt, Syncer, World, interval, minutes, default_sync_interval, too_early, upload, uploaded,
  after_count, trigger_if_due,
}

-- One poll: what its upload would meet, when it begins, and when its upload would end.
pub record Poll (Content : Type 0) : Type 0 where
  pub attempt : Attempt Content
  pub now : ℤ
  pub done : ℤ

-- A successful upload: the poll's time, and the time that the Syncer keeps.
abbrev pub Upload : Type 0
Upload = ℤ × ℤ

module _ {Content : Type 0} (json : Json Content) (dir : Text) where
  abbrev pub note_upload : Poll Content → Option (Result (Unit {0})) → List Upload → List Upload
  note_upload p (some (ok _)) later = (p.now, p.done) ∷ later
  note_upload p _ later = later

  -- The successful uploads of some polls, in order.
  unfoldable pub uploads : List (Poll Content) → World Content → List Upload
  unfolding trigger_if_due
  uploads [] w = []
  uploads (p ∷ ps) w =
      let (result, w') = trigger_if_due json dir p.attempt p.now p.done w in
      note_upload p result (uploads ps w')

abbrev Since : ℤ → Option ℤ → ℤ → Type 0
Since gap none now = Unit
Since gap (some t) now = gap ≤ℤ (now -ℤ t)

-- Each upload begins at least `gap` after the end of the one before it.
abbrev pub Spaced : ℤ → Option ℤ → List Upload → Type 0
Spaced gap last [] = Unit
Spaced gap last ((now, done) ∷ us) = Since gap last now × Spaced gap (some done) us

-- What the configuration asks for, in nanoseconds: its minutes, or an hour.
abbrev pub configured : Config → ℤ
configured cfg = elim cfg.sync_interval [
  | pos (suc n) ↦ pos (suc n * 60000000000)
  | _ ↦ pos 3600000000000
]

interval-configured :
    (cfg : Config) → cfg.sync_interval ≤ℤ pos 153722867 → interval cfg ≡ configured cfg
unfolding interval
interval-configured cfg small = by_sign cfg.sync_interval small
  where
    by_sign :
        (m : ℤ)
        → m ≤ℤ pos 153722867
        → (if ltb_ℤ (pos 0) m then minutes m else default_sync_interval)
          ≡ (elim m as (λ _. ℤ) [ pos (suc n) ↦ pos (suc n * 60000000000) | _ ↦ pos 3600000000000 ])
    by_sign (pos zero) h = refl
    by_sign (pos (suc n)) h =
        let positive : ltb_ℤ (pos 0) (pos (suc n)) ≡ true = ground arith in
        rw positive (wrap_64_exact (suc n * 60000000000) (omega arith))
    by_sign (negsuc n) h =
        let negative : ltb_ℤ (pos 0) (negsuc n) ≡ false = ground arith in rw negative refl

-- What a poll does to the Syncer.
data Step (p_now p_done : ℤ) (s s' : Syncer) (r : Option (Result (Unit {0}))) : Type 0 where
  idle :
      s'.cfg ≡ s.cfg
      → s'.last_sync ≡ s.last_sync
      → ((r ≡ none) ⊎ (e : Error) × (r ≡ some (err e)))
      → Step p_now p_done s s' r
  uploads_now :
      s'.cfg ≡ s.cfg
      → s'.last_sync ≡ some p_done
      → too_early s p_now ≡ false
      → r ≡ some (ok tt)
      → Step p_now p_done s s' r

module _ {Content : Type 0} (json : Json Content) (dir : Text) where
  uploaded-Step :
      (now done rows : ℤ) (s : Syncer) (w : World Content) (r : Result (Unit {0}) × Files Content)
      → w.syncer ≡ s
      → too_early s now ≡ false
      → let (result, w') = uploaded json dir done rows w r in Step now done s w'.syncer result
  unfolding uploaded
  uploaded-Step now done rows s w (err e, files) h due =
      idle (ap (λ x. x.cfg) h) (ap (λ x. x.last_sync) h) (inr (e, refl))
  uploaded-Step now done rows s w (ok _, files) h due =
      uploads_now (ap (λ x. x.cfg) h) refl due refl

  after_count-Step :
      (a : Attempt Content) (now done : ℤ) (w : World Content) (c : Session.Result ℤ × Session)
      → too_early w.syncer now ≡ false
      → let (result, w') = after_count json dir a done w c in
        Step now done w.syncer w'.syncer result
  unfolding after_count
  after_count-Step a now done w (Session.err e, session) due =
      idle refl refl (inr (row_count, refl))
  after_count-Step a now done w (Session.ok rows, session) due =
      elim (Bool-cases (eqb_ℤ rows w.syncer.last_row)) [
        | inl e ↦
            simp (e, after_count)
              (uploaded-Step now done rows w.syncer (record w { session = session })
                (upload json dir a w.files) refl due)
        | inr e ↦ simp (e, after_count) (idle refl refl (inl refl))
      ]

  trigger_if_due-Step :
      (p : Poll Content) (w : World Content)
      → let (result, w') = trigger_if_due json dir p.attempt p.now p.done w in
        Step p.now p.done w.syncer w'.syncer result
  unfolding trigger_if_due
  trigger_if_due-Step p w = elim (Bool-cases (too_early w.syncer p.now)) [
    | inl e ↦ simp (e, trigger_if_due) (idle refl refl (inl refl))
    | inr e ↦
        simp (e, trigger_if_due) (after_count-Step p.attempt p.now p.done w (count w.session) e)
  ]

  due-Since :
      (s : Syncer) (now : ℤ) → too_early s now ≡ false → Since (interval s.cfg) s.last_sync now
  unfolding too_early
  due-Since s now due = elim (Option-cases s.last_sync) [
    | inl e ↦ rw e tt
    | inr (t, e) ↦ rw e (let h = rw (too_early, e) at due in ground arith)
  ]

  note_upload-Spaced :
      (p : Poll Content) (s s' : Syncer) (r : Option (Result (Unit {0}))) (us : List Upload)
      → Step p.now p.done s s' r
      → Spaced (interval s'.cfg) s'.last_sync us
      → Spaced (interval s.cfg) s.last_sync (note_upload json dir p r us)
  note_upload-Spaced p s s' r us (idle c l (inl k)) h = rw (k, sym c, sym l) h
  note_upload-Spaced p s s' r us (idle c l (inr (e, k))) h = rw (k, sym c, sym l) h
  note_upload-Spaced p s s' r us (uploads_now c l due k) h = rw k (
    due-Since s p.now due,
    subst (λ cfg. Spaced (interval cfg) (some p.done) us) c
        (subst (λ last. Spaced (interval s'.cfg) last us) l h),
  )

  polls-Spaced :
      (ps : List (Poll Content)) (w : World Content)
      → Spaced (interval w.syncer.cfg) w.syncer.last_sync (uploads json dir ps w)
  unfolding uploads
  polls-Spaced [] w = tt
  polls-Spaced (p ∷ ps) w =
      let w' = (trigger_if_due json dir p.attempt p.now p.done w).1 in
      note_upload-Spaced p w.syncer w'.syncer (trigger_if_due json dir p.attempt p.now p.done w).0
        (uploads json dir ps w') (trigger_if_due-Step p w) (polls-Spaced ps w')

  -- Of any polls, each successful upload begins at least the configured minutes, or an hour if they
  -- are not positive, after the end of the one before it, the first of them after the last of the
  -- Syncer before, whatever fails in between; the minutes are at most 153,722,867, beyond which their
  -- nanoseconds wrap around.
  pub uploads-Spaced :
      (ps : List (Poll Content)) (w : World Content)
      → w.syncer.cfg.sync_interval ≤ℤ pos 153722867
      → Spaced (configured w.syncer.cfg) w.syncer.last_sync (uploads json dir ps w)
  uploads-Spaced ps w small =
      subst (λ gap. Spaced gap w.syncer.last_sync (uploads json dir ps w))
        (interval-configured w.syncer.cfg small) (polls-Spaced ps w)
