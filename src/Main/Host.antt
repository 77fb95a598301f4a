-- ===== src/Main/Host.antt =====
-- What the main process uses of Node: `node:fs`, `node:path` and JSON. A call that can throw says
-- whether it went through.
use vanilla_bus.Prelude.{
  ◌≡◌, ◌≢◌, Bool, true, false, List, Option, some, Text, codes, ◌++◌, ◌<◌, length,
}
use vanilla_bus.Engine.Value.{Value}

-- `mkdirSync`, `readFileSync`, `writeFileSync`, `renameSync` and `unlinkSync` on the state of the disk
pub record FileSystem : Type 1 where
  pub Disk : Type 0
  pub read : Disk → Text → Option Text
  pub make_directory : Disk → Text → Disk × Bool
  pub write : Disk → Text → Text → Disk × Bool
  pub rename : Disk → Text → Text → Disk × Bool
  pub unlink : Disk → Text → Disk × Bool

-- what the source relies on
pub record IsFileSystem (fs : FileSystem) : Type 0 where
  pub directories_apart :
      (disk : fs.Disk) (d path : Text)
      → fs.read (fs.make_directory disk d).0 path ≡ fs.read disk path
  pub written :
      (disk : fs.Disk) (path body : Text)
      → (fs.write disk path body).1 ≡ true
      → fs.read (fs.write disk path body).0 path ≡ some body
  pub writes_one :
      (disk : fs.Disk) (path body other : Text)
      → path ≢ other
      → fs.read (fs.write disk path body).0 other ≡ fs.read disk other
  pub renamed :
      (disk : fs.Disk) (from to : Text)
      → (fs.rename disk from to).1 ≡ true
      → fs.read (fs.rename disk from to).0 to ≡ fs.read disk from
  pub not_renamed :
      (disk : fs.Disk) (from to path : Text)
      → (fs.rename disk from to).1 ≡ false
      → fs.read (fs.rename disk from to).0 path ≡ fs.read disk path
  pub unlinks_one :
      (disk : fs.Disk) (path other : Text)
      → path ≢ other
      → fs.read (fs.unlink disk path).0 other ≡ fs.read disk other

-- `JSON.parse`, and `JSON.stringify` with an indent of two
pub record JsonText : Type 0 where
  pub parse : Text → Option Value
  pub stringify : Value → Text

-- `JSON.parse` reads back what `JSON.stringify` wrote, with a line end behind it.
abbrev pub ReadsBack : JsonText → Value → Type 0
ReadsBack json v = json.parse (json.stringify v ++ codes "\n") ≡ some v

-- `node:path`, and `existsSync` on the disk as it is
pub record Paths : Type 0 where
  pub exists : Text → Bool
  pub join : List Text → Text
  pub dirname : Text → Text
  pub is_absolute : Text → Bool
  pub resolve : Text → Text

-- what the source relies on: neither call returns the empty text
pub record IsPaths (paths : Paths) : Type 0 where
  pub joined : (parts : List Text) → 0 < length (paths.join parts)
  pub resolved : (path : Text) → 0 < length (paths.resolve path)
