-- ===== src/Main/UserStore.antt =====
-- electron/main/userStore.ts: the snapshot on disk.
use vanilla_bus.Prelude.{ℕ, Bool, true, false, ◌++◌, Option, none, some, Text, codes, if◌then◌else◌}
use vanilla_bus.Engine.Value.{Value}
use vanilla_bus.Persist.{PersistSnapshot, default_persist}
use vanilla_bus.Persist.Sanitize.{sanitize_persist}
use vanilla_bus.Persist.Build.{of_snapshot}
use vanilla_bus.Trace.Format.{to_string}
use vanilla_bus.Main.Host.{FileSystem, JsonText}

abbrev pub parsed : Option Value → PersistSnapshot
parsed none = default_persist
parsed (some v) = sanitize_persist v

-- calls in a row: the state after the first that threw, or after the last
abbrev pub in_turn {ℓ} : {D : Type ℓ} → Bool → Bool → D × Bool → D × Bool → D × Bool → D × Bool
in_turn false b x y z = x
in_turn true false x y z = y
in_turn true true x y z = z

module _ (fs : FileSystem) (json : JsonText) (dirname : Text → Text) (pid : ℕ) where
  abbrev pub read_text : Option Text → PersistSnapshot
  read_text none = default_persist
  read_text (some text) = parsed (json.parse text)

  -- a missing or corrupt file is the default
  unfoldable pub load : Text → fs.Disk → PersistSnapshot
  load path disk = read_text (fs.read disk path)

  -- `${this.filePath}.${process.pid}.tmp`
  abbrev pub tmp_path : Text → Text
  tmp_path path = path ++ codes "." ++ to_string 10 pid ++ codes ".tmp"

  abbrev pub body_of : PersistSnapshot → Text
  body_of next = json.stringify (of_snapshot next) ++ codes "\n"

  -- The rename, a second time without the destination where it fails. False is an exception.
  unfoldable pub replace : Text → fs.Disk → fs.Disk × Bool
  replace path disk =
      let first = fs.rename disk (tmp_path path) path in
      if first.1 then first else fs.rename (fs.unlink first.0 path).0 (tmp_path path) path

  abbrev pub save_body : Text → Text → fs.Disk → fs.Disk × Bool
  save_body path body disk =
      let made = fs.make_directory disk (dirname path) in
      let put = fs.write made.0 (tmp_path path) body in
      in_turn made.1 put.1 made put (replace path put.0)

  -- the snapshot that `save` returns, where it does not throw
  unfoldable pub save : Text → PersistSnapshot → fs.Disk → fs.Disk × Option PersistSnapshot
  save path snapshot disk =
      let next = sanitize_persist (of_snapshot snapshot) in
      let r = save_body path (body_of next) disk in (r.0, if r.1 then some next else none)
