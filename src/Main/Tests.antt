-- ===== src/Main/Tests.antt =====
-- A disk on which a rename fails where the destination is there; a packaged application.
use vanilla_bus.Prelude.{
  ◌≡◌, ◌≢◌, refl, ap, Bool, true, false, List, [], ◌∷◌, ◌++◌, Option, none, some, Text, codes,
  arith, if◌then◌else◌, ◌<◌, length,
}
use vanilla_bus.Prelude.Strings.{same, same_iff, same_refl, trim}
use vanilla_bus.Trace.Format.{to_string}
use vanilla_bus.Persist.Samples.{saved, saved-IsSnapshot, saved-IsTidy}
use vanilla_bus.Main.Samples.{tagged, saved-ReadsBack}
use vanilla_bus.Persist.Restore.{sanitize_persist-of_snapshot}
use vanilla_bus.Main.Host.{Paths, IsPaths, FileSystem, IsFileSystem}
use vanilla_bus.Main.UserStore.{load, save, replace}
use vanilla_bus.Prelude.Assoc.{lookup, insert}
use vanilla_bus.Main.Browse.{resolve_dbc_browse_default_path, browse_from}
use vanilla_bus.Main.Launch.{EnginePathOptions, variable, plan_engine_launch}
use vanilla_bus.Main.Plan.{LeadsWith, HasUserRoot, plan_engine_launch-env}
use vanilla_bus.Main.SaveLoad.{save-load}

abbrev Files : Type 0
Files = Text → Option Text

abbrev put : Text → Option Text → Files → Files
put path body disk other = if same path other then body else disk other

abbrev move : Files → Text → Text → Files × Bool
move disk from to = elim (disk to) [
  | none ↦ (put to (disk from) (put from none disk), true)
  | some body ↦ (disk, false)
]

abbrev disks : FileSystem
disks = record {
  Disk = Files;
  read = λ disk path. disk path;
  make_directory = λ disk d. (disk, true);
  write = λ disk path body. (put path (some body) disk, true);
  rename = move;
  unlink = λ disk path. (put path none disk, true);
}

put_same : (path : Text) (body : Option Text) (disk : Files) → put path body disk path ≡ body
put_same path body disk = rw (same_refl path)

put_other :
    (path other : Text) (body : Option Text) (disk : Files)
    → path ≢ other
    → put path body disk other ≡ disk other
put_other path other body disk h = ground (arith, same_iff path other, h)

move-renamed :
    (disk : Files) (from to : Text)
    → (move disk from to).1 ≡ true
    → (move disk from to).0 to ≡ disk from
move-renamed disk from to h = ground (arith, same_refl to)

disks-IsFileSystem : IsFileSystem disks
disks-IsFileSystem = record {
  directories_apart = λ disk d path. refl;
  written = λ disk path body h. put_same path (some body) disk;
  writes_one = λ disk path body other h. put_other path other (some body) disk h;
  renamed = move-renamed;
  not_renamed = λ disk from to path h. ground arith;
  unlinks_one = λ disk path other h. put_other path other none disk h;
}

abbrev here : Text → Text
here path = []

abbrev full : Files
full path = some []

-- The file is there already, so that it is removed before the second rename.
saves : (save disks tagged here 7 (codes "ui.json") saved full).1 ≡ some saved
unfolding save replace same to_string
saves = ap some (sanitize_persist-of_snapshot saved saved-IsSnapshot saved-IsTidy)

save-load_example :
    (saved ≡ saved)
    × (load disks tagged here 7
          (codes "ui.json")
          (save disks tagged here 7 (codes "ui.json") saved full).0
        ≡ saved)
save-load_example =
    save-load disks tagged here 7 disks-IsFileSystem (codes "ui.json") full saved saved
      saved-IsSnapshot saved-IsTidy saved-ReadsBack saves

abbrev concat : List Text → Text
concat [] = codes "."
concat (s ∷ ss) = s ++ codes "/" ++ concat ss

abbrev bare : Paths
bare = record {
  exists = λ path. false;
  join = concat;
  dirname = λ path. path;
  is_absolute = λ path. true;
  resolve = λ path. codes "/" ++ path;
}

bare-IsPaths : IsPaths bare
bare-IsPaths = record { joined = long; resolved = λ path. omega arith }
  where
    long : (parts : List Text) → 0 < length (concat parts)
    long [] = omega arith
    long ([] ∷ ss) = omega arith
    long ((c ∷ s) ∷ ss) = omega arith

abbrev packaged_app : EnginePathOptions
packaged_app = record {
  env = (codes "HOME", codes "/home/u") ∷ (codes "PYTHONPATH", codes "/p") ∷ [];
  cwd = codes "/";
  resources_path = codes "/opt/r";
  default_app = false;
  homedir = codes "/home/u";
}

home_apart :
    (same (codes "VANILLABUS_ROOT") (codes "HOME") ≡ false)
    × (same (codes "VANILLABUS_ENGINE_ROOT") (codes "HOME") ≡ false)
    × (same (codes "PYTHONPATH") (codes "HOME") ≡ false)
unfolding same
home_apart = (refl, refl, refl)

plan_engine_launch-env_example :
    (let plan = plan_engine_launch bare packaged_app in
      let python = codes "PYTHONPATH" in
      (lookup (codes "VANILLABUS_ENGINE_ROOT") plan.env ≡ some plan.engine_root)
      × LeadsWith plan.engine_root (variable python packaged_app.env) (lookup python plan.env)
      × HasUserRoot packaged_app plan.env
      × (lookup (codes "HOME") plan.env ≡ lookup (codes "HOME") packaged_app.env))
plan_engine_launch-env_example =
    plan_engine_launch-env bare bare-IsPaths packaged_app (codes "HOME") home_apart.0 home_apart.1
      home_apart.2

-- the root before the path that was there
root_first :
    lookup (codes "PYTHONPATH") (plan_engine_launch bare packaged_app).env
    ≡ some (codes "//engine/.:/p")
unfolding plan_engine_launch lookup insert same trim
root_first = refl

-- a field with a path that is not there opens the dialog at home
no_file :
    resolve_dbc_browse_default_path bare (some (codes " x.dbc")) (codes "/") (codes "/home/u")
    ≡ codes "/home/u"
unfolding browse_from trim same
no_file = refl
