-- ===== src/Dict.antt =====
-- Maps with texts as keys, as lists of entries. A file system is one from paths to contents.
pub mod Distinct
pub mod Lookup
use eidetic_daemon.Prelude.{Option, none, some, List, [], ◌∷◌, if◌then◌else◌}
use eidetic_daemon.TextSearch.{Text, same_text}

abbrev pub Dict : Type 0 → Type 0
Dict Value = List (Text × Value)

module _ {Value : Type 0} where
  unfoldable pub lookup : Text → Dict Value → Option Value
  unfolding same_text
  lookup key [] = none
  lookup key ((k, v) ∷ dict) =
      let later = lookup key dict in if same_text k key then some v else later

  unfoldable pub put : Text → Value → Dict Value → Dict Value
  unfolding same_text
  put key value [] = (key, value) ∷ []
  put key value ((k, v) ∷ dict) =
      let later = put key value dict in
      if same_text k key then (k, value) ∷ dict else (k, v) ∷ later

  unfoldable pub remove : Text → Dict Value → Dict Value
  unfolding same_text
  remove key [] = []
  remove key ((k, v) ∷ dict) =
      let later = remove key dict in if same_text k key then later else (k, v) ∷ later
