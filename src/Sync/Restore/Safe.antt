-- ===== src/Sync/Restore/Safe.antt =====
-- A restore loses nothing.
use eidetic_daemon.Prelude.{
  ◌≡◌, ◌==◌, refl, sym, ◌∙◌, Bool, Bool-cases, Option-cases, inl, inr, ◌⊎◌, true, false, Option,
  none, some, codes,
}
use eidetic_daemon.TextSearch.{Text, same_text}
use eidetic_daemon.TextSearch.Same.{same_text_self}
use eidetic_daemon.Files.{Files, try_remove, try_rename}
use eidetic_daemon.Dict.{lookup, put, remove}
use eidetic_daemon.Dict.Lookup.{
  lookup-put, lookup-remove, same_text-append, same_text_append_self, same_text_append_other,
}
use eidetic_daemon.Sync.{
  Config, Error, Result, ok, err, replace_db, not_configured, create_temp, no_backup,
  worker_returned,
}
use eidetic_daemon.Sync.Restore.{
  Download, Trouble, tmp_path, bak_path, after_backup, replace_with_tmp, install, save_download,
  receive, restore_from_config,
}

-- The three paths differ.
record Apart (db bak tmp : Text) : Type 0 where
  db_bak : same_text db bak ≡ false
  bak_db : same_text bak db ≡ false
  db_tmp : same_text db tmp ≡ false
  tmp_db : same_text tmp db ≡ false
  bak_tmp : same_text bak tmp ≡ false
  tmp_bak : same_text tmp bak ≡ false

paths-Apart : (db : Text) → Apart db (bak_path db) (tmp_path db)
unfolding same_text
paths-Apart db = record {
  db_bak = same_text_append_self db (codes ".bak");
  bak_db = same_text_append_other db (codes ".bak");
  db_tmp = same_text_append_self db (codes ".restore-tmp");
  tmp_db = same_text_append_other db (codes ".restore-tmp");
  bak_tmp = same_text-append db (codes ".bak") (codes ".restore-tmp");
  tmp_bak = same_text-append db (codes ".restore-tmp") (codes ".bak");
}

module _ {Content : Type 0} (db : Text) where
  -- A path that is none of the three reads the same.
  abbrev SameOthers : Files Content → Files Content → Type 0
  SameOthers before after =
      (p : Text)
      → same_text db p ≡ false
      → same_text (bak_path db) p ≡ false
      → same_text (tmp_path db) p ≡ false
      → lookup p after ≡ lookup p before

  -- Over a database `old`, if there is one, and the body `received`.
  pub record Safe (received : Content) (before after : Files Content) (r : Result (Unit {0}))
      : Type 0 where
    pub kept :
        (old : Content)
        → lookup db before ≡ some old
        → (lookup db after ≡ some old) ⊎ (lookup (bak_path db) after ≡ some old)
    pub done :
        r ≡ ok tt
        → (lookup db after ≡ some received)
          × ((old : Content) → lookup db before ≡ some old → lookup (bak_path db) after ≡ some old)
    pub others : SameOthers before after

  move-others :
      (fails : Bool) (old new : Text) (files : Files Content) (p : Text)
      → same_text old p ≡ false
      → same_text new p ≡ false
      → lookup p (try_rename fails old new files).1 ≡ lookup p files
  unfolding try_rename
  move-others true old new files p h k = refl
  move-others false old new files p h k = elim (Option-cases (lookup old files)) [
    | inl e ↦ rw (e, try_rename) refl
    | inr (c, e) ↦ rw (e, try_rename, lookup-put, k, lookup-remove, h) refl
  ]

  remove-others :
      (fails : Bool) (path : Text) (files : Files Content) (p : Text)
      → same_text path p ≡ false
      → lookup p (try_remove fails path files) ≡ lookup p files
  unfolding try_remove
  remove-others true path files p h = refl
  remove-others false path files p h = rw (lookup-remove, h) refl

  -- The download is in place, and the old database, if there is one, stands as the backup.
  record Ready (received : Content) (before files : Files Content) : Type 0 where
    downloaded : lookup (tmp_path db) files ≡ some received
    backed_up :
        (old : Content) → lookup db before ≡ some old → lookup (bak_path db) files ≡ some old
    untouched : SameOthers before files

  module _ (t : Trouble) (received : Content) (before : Files Content) where
    undo-Safe :
        (files : Files Content)
        → Ready received before files
        → Safe received before (try_rename t.undo (bak_path db) db files).1 (err replace_db)
    unfolding try_rename
    undo-Safe files ready = record {
      kept = λ old h.
          let there = ready.backed_up old h in
          elim (Bool-cases t.undo) [
            | inl e ↦ rw (e, try_rename) (inr there)
            | inr e ↦ rw (e, try_rename, there, lookup-put, same_text_self) (inl refl)
          ];
      done = λ e. cc;
      others = λ p h k l. move-others t.undo (bak_path db) db files p k h ∙ ready.untouched p h k l;
    }

    replace-Safe :
        (files : Files Content)
        → Ready received before files
        → let r = replace_with_tmp t db files in Safe received before r.1 r.0
    unfolding replace_with_tmp try_rename
    replace-Safe files ready =
        let apart = paths-Apart db in
        elim (Bool-cases t.replace) [
          | inr e ↦
              rw (e, ready.downloaded, replace_with_tmp, try_rename)
                (record {
                  kept = λ old h. inr (
                      rw (lookup-put, apart.db_bak, lookup-remove, apart.tmp_bak)
                        (ready.backed_up old h));
                  done = λ _. (
                    rw (lookup-put, same_text_self) refl,
                    λ old h.
                        rw (lookup-put, apart.db_bak, lookup-remove, apart.tmp_bak)
                          (ready.backed_up old h),
                  );
                  others =
                      λ p h k l. rw (lookup-put, h, lookup-remove, l) (ready.untouched p h k l);
                })
          | inl e ↦ rw (e, replace_with_tmp, try_rename) (undo-Safe files ready)
        ]

    backup-Safe :
        (files : Files Content) (old : Content)
        → lookup db files ≡ some old
        → lookup (tmp_path db) files ≡ some received
        → lookup db before ≡ lookup db files
        → SameOthers before files
        → let r = after_backup t db (try_rename t.backup db (bak_path db) files) in
          Safe received before r.1 r.0
    unfolding try_rename try_remove
    backup-Safe files old e downloaded same untouched =
        let apart = paths-Apart db in
        elim (Bool-cases t.backup) [
          | inl f ↦
              rw (f, try_rename)
                (record {
                  kept = λ o h. inl (
                      remove-others t.discard (tmp_path db) files db apart.tmp_db ∙ (sym same ∙ h));
                  done = λ e. cc;
                  others = λ p h k l.
                      remove-others t.discard (tmp_path db) files p l ∙ untouched p h k l;
                })
          | inr f ↦
              simp (f, e, try_rename)
                (replace-Safe (put (bak_path db) old (remove db files)) (record {
                  downloaded =
                      rw (lookup-put, apart.bak_tmp, lookup-remove, apart.db_tmp) downloaded;
                  backed_up = λ o h. rw (lookup-put, same_text_self) (cc (h, same, e));
                  untouched = λ p h k l. rw (lookup-put, k, lookup-remove, h) (untouched p h k l);
                }))
        ]

    -- From the Stat of the database on, when it does not fail.
    install-Safe :
        (files : Files Content)
        → t.stat ≡ false
        → lookup (tmp_path db) files ≡ some received
        → lookup db before ≡ lookup db files
        → SameOthers before files
        → let r = install t db files in Safe received before r.1 r.0
    unfolding install
    install-Safe files seen downloaded same untouched = elim (Option-cases (lookup db files)) [
      | inl e ↦
          rw (e, install)
            (replace-Safe files (record {
              downloaded = downloaded;
              backed_up = λ old h. absurd (cc (h, same, e));
              untouched = untouched;
            }))
      | inr (old, e) ↦ simp (e, install, seen) (backup-Safe files old e downloaded same untouched)
    ]

  unchanged-Safe :
      (received : Content) (files : Files Content) (e : Error) → Safe received files files (err e)
  unchanged-Safe received files e = record {
    kept = λ old h. inl h;
    done = λ k. cc;
    others = λ p h k l. refl;
  }

  download-Safe :
      (t : Trouble) (d : Download Content) (files : Files Content)
      → t.stat ≡ false
      → let r = save_download t db d files in Safe d.received files r.1 r.0
  unfolding save_download
  download-Safe t d files seen =
      let apart = paths-Apart db in
      elim (Bool-cases t.create) [
        | inl e ↦ simp (e, save_download) (unchanged-Safe d.received files create_temp)
        | inr e ↦ elim (Bool-cases d.complete) [
          | inl f ↦
              simp (e, f, save_download)
                (install-Safe t d.received files (put (tmp_path db) d.received files) seen
                  (rw (lookup-put, same_text_self) refl) (rw (lookup-put, apart.tmp_db) refl)
                  (λ p h k l. rw (lookup-put, l) refl))
          | inr f ↦
              simp (e, f, save_download)
                (record {
                  kept = λ old h. inl (
                      remove-others t.discard (tmp_path db) (put (tmp_path db) d.received files) db
                        apart.tmp_db
                      ∙ rw (lookup-put, apart.tmp_db) h);
                  done = λ k. cc;
                  others = λ p h k l.
                      remove-others t.discard (tmp_path db) (put (tmp_path db) d.received files) p l
                      ∙ rw (lookup-put, l) refl;
                })
        ]
      ]

  -- Whichever of its steps fail, but for the Stat of the database, a restore leaves the old database at
  -- its place or as the backup, and every other file as it was; one that succeeds leaves the body of
  -- the answer at the place of the database, and the old one as the backup.
  pub restore_from_config-Safe :
      (t : Trouble) (cfg : Option Config) (d : Download Content) (files : Files Content)
      → t.stat ≡ false
      → let r = restore_from_config t db cfg (ok d) files in Safe d.received files r.1 r.0
  unfolding restore_from_config receive save_download
  restore_from_config-Safe t none d files seen = unchanged-Safe d.received files not_configured
  restore_from_config-Safe t (some cfg) d files seen = elim (Bool-cases (d.status == 404)) [
    | inl e ↦ simp (e, restore_from_config, receive) (unchanged-Safe d.received files no_backup)
    | inr e ↦ elim (Bool-cases (d.status == 200)) [
      | inl f ↦ simp (e, f, restore_from_config, receive) (download-Safe t d files seen)
      | inr f ↦
          simp (e, f, restore_from_config, receive)
            (unchanged-Safe d.received files (worker_returned d.status))
    ]
  ]
