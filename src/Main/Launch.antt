-- ===== src/Main/Launch.antt =====
-- electron/main/enginePaths.ts: which Python runs which engine, and with which environment.
use vanilla_bus.Prelude.{
  Bool, false, not, ◌&&◌, ◌||◌, List, [], ◌∷◌, ◌++◌, Text, codes, length, ◌==◌, if◌then◌else◌,
}
use vanilla_bus.Prelude.Strings.{same, trim}
use vanilla_bus.Prelude.Assoc.{lookup, insert}
use vanilla_bus.Main.Host.{Paths}
use vanilla_bus.Main.Browse.{or_empty_text}

-- `process.env`: the variables that are set
abbrev pub Env : Type 0
Env = List (Text × Text)

-- `EnginePathOptions` with what stands in for a missing one. An absent `resourcesPath` is empty.
pub record EnginePathOptions : Type 0 where
  pub env : Env
  pub cwd : Text
  pub resources_path : Text
  pub default_app : Bool
  pub homedir : Text

pub record EngineLaunchPlan : Type 0 where
  pub python_bin : Text
  pub engine_root : Text
  pub cwd : Text
  pub env : Env
  pub packaged : Bool

-- `env.NAME`, where the empty text stands for a missing variable as well: the code treats both alike
abbrev pub variable : Text → Env → Text
variable name env = or_empty_text (lookup name env)

abbrev pub is_empty : Text → Bool
is_empty s = length s == 0

abbrev pub is_packaged_electron : EnginePathOptions → Bool
is_packaged_electron o =
    if same (variable (codes "VANILLABUS_DEV") o.env) (codes "1")
    then false
    else if is_empty o.resources_path
    then false
    else not o.default_app

module _ (paths : Paths) where
  abbrev pub looks_like_engine_root : Text → Bool
  looks_like_engine_root dir =
      paths.exists
        (paths.join (dir ∷ paths.join (codes "can_engine" ∷ codes "__main__.py" ∷ []) ∷ []))

  abbrev pub bundled_or_checkout : EnginePathOptions → Text
  bundled_or_checkout o =
      let bundled = paths.join (o.resources_path ∷ codes "engine" ∷ []) in
      if not (is_empty o.resources_path) && looks_like_engine_root bundled
      then bundled
      else paths.join (o.cwd ∷ codes "engine" ∷ [])

  abbrev pub resolve_engine_root : EnginePathOptions → Text
  resolve_engine_root o =
      let override = trim (variable (codes "VANILLABUS_ENGINE_ROOT") o.env) in
      if is_empty override then bundled_or_checkout o else paths.resolve override

  abbrev pub data_home : Env → Text
  data_home env =
      let xdg = trim (variable (codes "XDG_DATA_HOME") env) in
      let home = variable (codes "HOME") env in
      if not (is_empty xdg)
      then xdg
      else if is_empty home
      then []
      else paths.join (home ∷ codes ".local" ∷ codes "share" ∷ [])

  -- the Python of the user's own environment, where that is whole
  abbrev pub venv_python : Text → Text
  venv_python home =
      let venv = paths.join (home ∷ codes "vanillabus" ∷ codes "venv" ∷ []) in
      let python = paths.join (venv ∷ codes "bin" ∷ codes "python3" ∷ []) in
      if not (is_empty home)
        && paths.exists python
        && paths.exists (paths.join (venv ∷ codes "bin" ∷ codes "pip" ∷ []))
      then python
      else codes "python3"

  abbrev pub resolve_python_bin : EnginePathOptions → Text
  resolve_python_bin o =
      let override = trim (variable (codes "VANILLABUS_PYTHON") o.env) in
      if not (is_empty override)
      then override
      else if is_packaged_electron o
          || same (variable (codes "VANILLABUS_USE_USER_VENV") o.env) (codes "1")
      then venv_python (data_home o.env)
      else codes "python3"

  -- the parts that are not empty, with a colon between them
  abbrev pub python_path : Text → Text → Text
  python_path root more =
      if is_empty root then more else if is_empty more then root else root ++ codes ":" ++ more

  abbrev pub with_user_root : Bool → Text → Env → Env
  with_user_root packaged home env =
      if packaged && is_empty (trim (variable (codes "VANILLABUS_ROOT") env))
      then insert (codes "VANILLABUS_ROOT") home env
      else env

  unfoldable pub plan_engine_launch : EnginePathOptions → EngineLaunchPlan
  plan_engine_launch o =
      let root = resolve_engine_root o in
      let pythonpath = python_path root (variable (codes "PYTHONPATH") o.env) in
      let pointed =
        insert (codes "VANILLABUS_ENGINE_ROOT") root
          (insert (codes "PYTHONPATH") pythonpath o.env) in
      record {
        python_bin = resolve_python_bin o;
        engine_root = root;
        cwd = o.cwd;
        env = with_user_root (is_packaged_electron o) o.homedir pointed;
        packaged = is_packaged_electron o;
      }
