-- ===== src/Main/Browse.antt =====
-- electron/main/dbcBrowse.ts: where the file dialog for a DBC opens, and what it answers.
use vanilla_bus.Prelude.{
  Bool, false, not, ◌&&◌, List, [], ◌∷◌, Option, none, some, Text, codes, if◌then◌else◌,
}
use vanilla_bus.Prelude.Strings.{same, trim}
use vanilla_bus.Main.Host.{Paths}

abbrev pub or_empty_text : Option Text → Text
or_empty_text none = []
or_empty_text (some s) = s

module _ (paths : Paths) where
  abbrev pub fallback_path : Text → Text → Text
  fallback_path cwd home =
      let fixtures = paths.join (cwd ∷ codes "fixtures" ∷ codes "dbc" ∷ []) in
      if paths.exists fixtures then fixtures else home

  -- with the text of the field, without white space at its ends
  unfoldable pub browse_from : Text → Text → Text → Text
  browse_from [] cwd home = fallback_path cwd home
  browse_from (c ∷ s) cwd home =
      let candidate =
        if paths.is_absolute (c ∷ s) then c ∷ s else paths.join (cwd ∷ (c ∷ s) ∷ []) in
      let parent = paths.dirname candidate in
      if paths.exists candidate
      then candidate
      else if not (same parent candidate) && paths.exists parent
      then parent
      else fallback_path cwd home

  abbrev pub resolve_dbc_browse_default_path : Option Text → Text → Text → Text
  resolve_dbc_browse_default_path current cwd home =
      browse_from (trim (or_empty_text current)) cwd home

-- `DbcBrowseResult`: the path, or none where the dialog was cancelled
abbrev pub map_dbc_browse_dialog_result : Bool → List Text → Option Text
map_dbc_browse_dialog_result false ((c ∷ s) ∷ more) = some (c ∷ s)
map_dbc_browse_dialog_result _ _ = none
