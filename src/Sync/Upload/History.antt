-- ===== src/Sync/Upload/History.antt =====
-- The history of the uploads in the state file.
use eidetic_daemon.Prelude.{
  ℕ, zero, suc, ◌≤◌, ◌≡◌, ◌⊎◌, refl, sym, ap, ◌∙◌, ◌==◌, ltb, arith, Bool, Bool-cases, inl, inr,
  true, false, Option, none, some, List, [], ◌∷◌, ◌++◌, length, take, take_of_length-le, codes,
  if◌then◌else◌,
}
use eidetic_daemon.TextSearch.{Text, same_text}
use eidetic_daemon.TextSearch.Same.{same_text_self}
use eidetic_daemon.Files.{Files, try_rename}
use eidetic_daemon.Dict.{lookup}
use eidetic_daemon.Dict.Lookup.{lookup-put, same_text_append_other}
use eidetic_daemon.Sync.{
  BackupEntry, SyncState, Json, Result, ok, err, state_path, max_db_size, load_sync_state,
  save_sync_state,
}
use eidetic_daemon.Sync.Upload.{Attempt, newest, record_upload, worker_answered, copied, upload}

-- Every upload in turn.
module _ {Content : Type 0} (json : Json Content) (dir : Text) where
  unfoldable pub upload_all : List (Attempt Content) → Files Content → Files Content
  upload_all [] files = files
  upload_all (a ∷ rest) files = upload_all rest (upload json dir a files).1

  abbrev pub history_of : Files Content → List BackupEntry
  history_of files = (load_sync_state json false dir files).0.history

-- Whether writing or renaming the state file fails.
abbrev unsaved : {Content : Type 0} → Option (Option Content) → Bool → Bool
unsaved none rename_fails = rename_fails
unsaved (some _) rename_fails = true

abbrev extend : Bool → Option BackupEntry → List BackupEntry → List BackupEntry
extend read_fails none past = past
extend true (some entry) past = entry ∷ []
extend false (some entry) past = entry ∷ past

module _ {Content : Type 0} where
  -- The entry of an upload that the Worker accepted and of which the state file was written.
  unfoldable pub accepted_answer : Attempt Content → ℕ → Result (ℕ × Text) → Option BackupEntry
  accepted_answer a size (err e) = none
  accepted_answer a size (ok (status, key)) =
      if status == 201 then some (record { synced_at = a.now; key = key; bytes = size }) else none

  unfoldable pub accepted_copy : Attempt Content → Result ℕ → Option BackupEntry
  unfolding accepted_answer
  accepted_copy a (err e) = none
  accepted_copy a (ok size) =
      if ltb max_db_size size
      then none
      else if a.read_fails
      then none
      else accepted_answer a size a.answer

  unfoldable pub saved_entry : Attempt Content → Option BackupEntry
  unfolding accepted_copy
  saved_entry a =
      if unsaved a.state_write a.state_rename_fails then none else accepted_copy a a.copy

  -- What the history is made of, the latest first: an upload that cannot read the state file starts
  -- it anew.
  unfoldable pub recorded : List (Attempt Content) → List BackupEntry → List BackupEntry
  unfolding saved_entry
  recorded [] past = past
  recorded (a ∷ rest) past = recorded rest (extend a.state_read_fails (saved_entry a) past)

take-take {ℓ} : {A : Type ℓ} (m n : ℕ) (xs : List A) → m ≤ n → take m (take n xs) ≡ take m xs
take-take zero n xs h = refl
take-take (suc m) zero xs h = absurd (omega arith)
take-take (suc m) (suc n) [] h = refl
take-take (suc m) (suc n) (x ∷ xs) h = ap (◌∷◌ x) (take-take m n xs (omega arith))

newest-eq : (history : List BackupEntry) → newest history ≡ take 10 history
newest-eq history = elim (Bool-cases (ltb 10 (length history))) [
  | inl e ↦ rw e refl
  | inr e ↦ rw e (sym (take_of_length-le 10 history (ground arith)))
]

tmp-path : (dir : Text) → same_text (state_path dir ++ codes ".tmp") (state_path dir) ≡ false
tmp-path dir = same_text_append_other (state_path dir) (codes ".tmp")

module _ {Content : Type 0} (json : Json Content) (dir : Text) where
  save_sync_state-saved :
      (w : Option (Option Content)) (b : Bool) (state : SyncState) (files : Files Content)
      → unsaved w b ≡ false
      → lookup (state_path dir) (save_sync_state json w b dir state files).1
        ≡ some (json.encode state)
  unfolding save_sync_state try_rename
  save_sync_state-saved none true state files h = absurd (ground arith)
  save_sync_state-saved none false state files h =
      simp (save_sync_state, try_rename, lookup-put, same_text_self) refl
  save_sync_state-saved (some _) b state files h = absurd (ground arith)

  save_sync_state-unsaved :
      (w : Option (Option Content)) (b : Bool) (state : SyncState) (files : Files Content)
      → unsaved w b ≡ true
      → lookup (state_path dir) (save_sync_state json w b dir state files).1
        ≡ lookup (state_path dir) files
  unfolding save_sync_state try_rename
  save_sync_state-unsaved none true state files h = rw (lookup-put, tmp-path) refl
  save_sync_state-unsaved none false state files h = absurd (ground arith)
  save_sync_state-unsaved (some none) b state files h = refl
  save_sync_state-unsaved (some (some part)) b state files h = rw (lookup-put, tmp-path) refl

  -- An upload is one that the Worker accepted, or it leaves the files alone.
  abbrev Accepts : Attempt Content → Option BackupEntry → Files Content → Files Content → Type 0
  Accepts a o files after =
      ((o ≡ none) × (after ≡ files))
      ⊎ ((key : Text) × (size : ℕ) × (o
            ≡ some (record { synced_at = a.now; key = key; bytes = size }))
          × (after ≡ record_upload json dir a key size files))

  worker_answered-Accepts :
      (a : Attempt Content) (size : ℕ) (r : Result (ℕ × Text)) (files : Files Content)
      → Accepts a (accepted_answer a size r) files (worker_answered json dir a size r files).1
  unfolding worker_answered accepted_answer
  worker_answered-Accepts a size (err e) files = inl (refl, refl)
  worker_answered-Accepts a size (ok (status, key)) files = elim (Bool-cases (status == 201)) [
    | inl e ↦ simp (e, worker_answered, accepted_answer) (inr (key, size, refl, refl))
    | inr e ↦ simp (e, worker_answered, accepted_answer) (inl (refl, refl))
  ]

  copied-Accepts :
      (a : Attempt Content) (r : Result ℕ) (files : Files Content)
      → Accepts a (accepted_copy a r) files (copied json dir a r files).1
  unfolding copied accepted_copy
  copied-Accepts a (err e) files = inl (refl, refl)
  copied-Accepts a (ok size) files = elim (Bool-cases (ltb max_db_size size)) [
    | inl e ↦ simp (e, copied, accepted_copy) (inl (refl, refl))
    | inr e ↦ elim (Bool-cases a.read_fails) [
      | inl f ↦ simp (e, f, copied, accepted_copy) (inl (refl, refl))
      | inr f ↦ simp (e, f, copied, accepted_copy) (worker_answered-Accepts a size a.answer files)
    ]
  ]

  -- A decoder that reads back what was encoded.
  module _ (json-roundtrip : (s : SyncState) → json.decode (json.encode s) ≡ (true, s)) where
    history_of_state :
        (state : SyncState) (files : Files Content)
        → lookup (state_path dir) files ≡ some (json.encode state)
        → history_of json dir files ≡ state.history
    unfolding load_sync_state
    history_of_state state files h = rw (history_of, load_sync_state, h, json-roundtrip) refl

    history_of_same :
        (before after : Files Content)
        → lookup (state_path dir) after ≡ lookup (state_path dir) before
        → history_of json dir after ≡ history_of json dir before
    unfolding load_sync_state
    history_of_same before after h = rw (history_of, load_sync_state, h) refl

    previous :
        (read_fails : Bool) (files : Files Content) (entry : BackupEntry) (past : List BackupEntry)
        → history_of json dir files ≡ take 10 past
        → newest (entry ∷ (load_sync_state json read_fails dir files).0.history)
          ≡ take 10 (extend read_fails (some entry) past)
    unfolding load_sync_state
    previous true files entry past h = refl
    previous false files entry past h =
        newest-eq (entry ∷ history_of json dir files)
        ∙ rw h (ap (◌∷◌ entry) (take-take 9 10 past (omega arith)))

    upload-history :
        (a : Attempt Content) (files : Files Content) (past : List BackupEntry)
        → history_of json dir files ≡ take 10 past
        → history_of json dir (upload json dir a files).1
          ≡ take 10 (extend a.state_read_fails (saved_entry a) past)
    unfolding upload saved_entry record_upload
    upload-history a files past h = elim (copied-Accepts a a.copy files) [
      | inl (o, e) ↦ elim (Bool-cases (unsaved a.state_write a.state_rename_fails)) [
        | inl u ↦ simp (u, saved_entry, upload, e) h
        | inr u ↦ simp (u, saved_entry, upload, e, o) h
      ]
      | inr (key, size, o, e) ↦ elim (Bool-cases (unsaved a.state_write a.state_rename_fails)) [
        | inl u ↦
            simp (u, saved_entry, upload, e)
              (history_of_same files (record_upload json dir a key size files)
                  (save_sync_state-unsaved a.state_write a.state_rename_fails _ files u)
                ∙ h)
        | inr u ↦
            simp (u, saved_entry, upload, e, o)
              (history_of_state _ (record_upload json dir a key size files)
                  (save_sync_state-saved a.state_write a.state_rename_fails _ files u)
                ∙ previous a.state_read_fails files
                    (record { synced_at = a.now; key = key; bytes = size }) past h)
      ]
    ]

    -- When a state file reads back, and holds a history of the first ten of `past`, any uploads leave
    -- a history of the first ten of: the entries of those that the Worker accepted and of which the
    -- state file could be written, the latest first, then `past`; an upload that cannot read the
    -- state file starts it anew.
    pub history-recorded :
        (uploads : List (Attempt Content)) (files : Files Content) (past : List BackupEntry)
        → history_of json dir files ≡ take 10 past
        → history_of json dir (upload_all json dir uploads files) ≡ take 10 (recorded uploads past)
    unfolding upload_all recorded
    history-recorded [] files past h = h
    history-recorded (a ∷ rest) files past h =
        history-recorded rest (upload json dir a files).1
          (extend a.state_read_fails (saved_entry a) past) (upload-history a files past h)
