-- ===== src/Main/Plan.antt =====
-- electron/main/enginePaths.ts: the environment of the engine's process.
use vanilla_bus.Prelude.{
  ◌≡◌, ◌≢◌, ◌<◌, ◌⊎◌, ◌↔◌, refl, sym, ap, ◌∙◌, Bool, true, false, not, ◌&&◌, [], ◌∷◌, ◌++◌, Option,
  some, Text, codes, length, if◌then◌else◌, inl, inr, arith,
}
use vanilla_bus.Prelude.Strings.{same, same_refl, same_iff, trim}
use vanilla_bus.Prelude.Assoc.{lookup, insert, lookup-insert}
use vanilla_bus.Main.Host.{Paths, IsPaths}
use vanilla_bus.Main.Browse.{or_empty_text}
use vanilla_bus.Main.Launch.{
  Env, EnginePathOptions, variable, is_empty, is_packaged_electron, resolve_engine_root,
  looks_like_engine_root, python_path, with_user_root, plan_engine_launch,
}

-- no development run, a directory of resources, and not Electron's own default application
abbrev pub IsPackaged : EnginePathOptions → Type 0
IsPackaged o =
    (variable (codes "VANILLABUS_DEV") o.env ≢ codes "1")
    × (o.resources_path ≢ [])
    × (o.default_app ≡ false)

abbrev pub IsUnpackaged : EnginePathOptions → Type 0
IsUnpackaged o =
    (variable (codes "VANILLABUS_DEV") o.env ≡ codes "1")
    ⊎ (o.resources_path ≡ [])
    ⊎ (o.default_app ≡ true)

-- the Python path, by the engine's root and the one of before
abbrev pub LeadsWith : Text → Text → Option Text → Type 0
LeadsWith root more path =
    ((more ≡ []) × (path ≡ some root)) ⊎ ((more ≢ []) × (path ≡ some (root ++ codes ":" ++ more)))

-- the directory for the user's files, before and after
abbrev pub HasUserRoot : EnginePathOptions → Env → Type 0
HasUserRoot o after =
    let root = codes "VANILLABUS_ROOT" in
    (IsPackaged o × (trim (variable root o.env) ≡ []) × (lookup root after ≡ some o.homedir))
    ⊎ ((IsUnpackaged o ⊎ (trim (variable root o.env) ≢ []))
        × (lookup root after ≡ lookup root o.env))

IsPackaged-cases :
    (o : EnginePathOptions)
    → ((is_packaged_electron o ≡ true) × IsPackaged o)
      ⊎ ((is_packaged_electron o ≡ false) × IsUnpackaged o)
IsPackaged-cases o =
    let dev = variable (codes "VANILLABUS_DEV") o.env in
    split (same dev (codes "1")) o.resources_path o.default_app (same_iff dev (codes "1"))
  where
    split :
        (b : Bool) (r : Text) (d : Bool)
        → ((b ≡ true) ↔ (variable (codes "VANILLABUS_DEV") o.env ≡ codes "1"))
        → (((if b then false else if is_empty r then false else not d) ≡ true)
            × ((variable (codes "VANILLABUS_DEV") o.env ≢ codes "1") × (r ≢ []) × (d ≡ false)))
          ⊎ (((if b then false else if is_empty r then false else not d) ≡ false)
              × ((variable (codes "VANILLABUS_DEV") o.env ≡ codes "1") ⊎ (r ≡ []) ⊎ (d ≡ true)))
    split true r d h = inr (refl, inl (h.0 refl))
    split false [] d h = inr (refl, inr (inl refl))
    split false (c ∷ r) true h = inr (ground arith, inr (inr refl))
    split false (c ∷ r) false h = inl (ground arith, (λ e. cc (h.1 e), λ e. cc, refl))

is_empty_cases : (s : Text) → ((is_empty s ≡ true) × (s ≡ [])) ⊎ ((is_empty s ≡ false) × (s ≢ []))
is_empty_cases [] = inl (refl, refl)
is_empty_cases (c ∷ s) = inr (ground arith, λ e. cc)

python_path-LeadsWith :
    (paths : Paths) (root more : Text)
    → 0 < length root
    → LeadsWith root more (some (python_path paths root more))
python_path-LeadsWith paths [] more h = absurd (omega arith)
python_path-LeadsWith paths (c ∷ root) [] h = inl (refl, ground arith)
python_path-LeadsWith paths (c ∷ root) (d ∷ more) h = inr (λ e. cc, ground arith)

module _ (paths : Paths) where
  lookup-insert_same : (k v : Text) (env : Env) → lookup k (insert k v env) ≡ some v
  lookup-insert_same k v env =
      lookup-insert k k v env ∙ ap (λ b. if b then some v else lookup k env) (same_refl k)

  engine_root_there :
      (o : EnginePathOptions) → IsPaths paths → 0 < length (resolve_engine_root paths o)
  engine_root_there o h =
      let bundled = paths.join (o.resources_path ∷ codes "engine" ∷ []) in
      let checkout = paths.join (o.cwd ∷ codes "engine" ∷ []) in
      let override = trim (variable (codes "VANILLABUS_ENGINE_ROOT") o.env) in
      let here = not (is_empty o.resources_path) && looks_like_engine_root paths bundled in
      either (is_empty override) (if here then bundled else checkout) (paths.resolve override)
        (either here bundled checkout (h.joined (o.resources_path ∷ codes "engine" ∷ []))
          (h.joined (o.cwd ∷ codes "engine" ∷ [])))
        (h.resolved override)
    where
      either :
          (b : Bool) (s t : Text) → 0 < length s → 0 < length t → 0 < length (if b then s else t)
      either true s t p q = p
      either false s t p q = q

  -- what is set besides the root directory stays
  rooted_keeps :
      (packaged : Bool) (home k : Text) (env : Env)
      → same (codes "VANILLABUS_ROOT") k ≡ false
      → lookup k (with_user_root paths packaged home env) ≡ lookup k env
  rooted_keeps packaged home k env other =
      let root = codes "VANILLABUS_ROOT" in
      split (packaged && is_empty (trim (variable root env)))
        (lookup-insert root k home env ∙ ap (λ b. if b then some home else lookup k env) other)
    where
      split :
          (b : Bool)
          → lookup k (insert (codes "VANILLABUS_ROOT") home env) ≡ lookup k env
          → lookup k (if b then insert (codes "VANILLABUS_ROOT") home env else env) ≡ lookup k env
      split true e = e
      split false e = refl

  with_user_root-HasUserRoot :
      (o : EnginePathOptions) (env : Env)
      → lookup (codes "VANILLABUS_ROOT") env ≡ lookup (codes "VANILLABUS_ROOT") o.env
      → HasUserRoot o (with_user_root paths (is_packaged_electron o) o.homedir env)
  with_user_root-HasUserRoot o env e =
      let root = codes "VANILLABUS_ROOT" in
      let test = is_empty (trim (variable root env)) in
      let set = λ (b : Bool). lookup root (if b then insert root o.homedir env else env) in
      let before : is_empty (trim (variable root o.env)) ≡ test =
        ap (λ v. is_empty (trim (or_empty_text v))) (sym e) in
      elim (IsPackaged-cases o) [
        | inr (p, unpackaged) ↦ inr (inl unpackaged, ap (λ b. set (b && test)) p ∙ e)
        | inl (p, packaged) ↦ elim (is_empty_cases (trim (variable root o.env))) [
          | inl (q, blank) ↦ inl (
            packaged,
            blank,
            ap (λ b. set (b && test)) p
                ∙ ap set (sym before ∙ q)
                ∙ lookup-insert_same root o.homedir env,
          )
          | inr (q, there) ↦
              inr (inr there, ap (λ b. set (b && test)) p ∙ ap set (sym before ∙ q) ∙ e)
        ]
      ]

  -- Where neither `join` nor `resolve` returns the empty text, the engine starts with this
  -- environment: its root; a Python path that is the root, followed by a colon and the one of before
  -- if that was not empty; the home directory as the directory for the user's files, if that variable
  -- was blank and the application is packaged (no development run, a directory of resources, not
  -- Electron's own default application), and otherwise that variable as it was; and every variable but
  -- these three as it was.
  pub plan_engine_launch-env :
      IsPaths paths
      → (o : EnginePathOptions) (k : Text) → same (codes "VANILLABUS_ROOT") k ≡ false
      → same (codes "VANILLABUS_ENGINE_ROOT") k ≡ false
      → same (codes "PYTHONPATH") k ≡ false
      → (let plan = plan_engine_launch paths o in
          let python = codes "PYTHONPATH" in
          (lookup (codes "VANILLABUS_ENGINE_ROOT") plan.env ≡ some plan.engine_root)
          × LeadsWith plan.engine_root (variable python o.env) (lookup python plan.env)
          × HasUserRoot o plan.env
          × (lookup k plan.env ≡ lookup k o.env))
  unfolding plan_engine_launch same
  plan_engine_launch-env h o k a b c =
      let p = is_packaged_electron o in
      let engine = codes "VANILLABUS_ENGINE_ROOT" in
      let python = codes "PYTHONPATH" in
      let user = codes "VANILLABUS_ROOT" in
      let root = resolve_engine_root paths o in
      let path = python_path paths root (variable python o.env) in
      let inner = insert python path o.env in
      let pointed = insert engine root inner in
      let python_set : lookup python (with_user_root paths p o.homedir pointed) ≡ some path =
        rooted_keeps p o.homedir python pointed refl
        ∙ lookup-insert engine python root inner
        ∙ lookup-insert_same python path o.env in
      (
        rooted_keeps p o.homedir engine pointed refl ∙ lookup-insert_same engine root inner,
        rw python_set
            (python_path-LeadsWith paths root (variable python o.env) (engine_root_there o h)),
        with_user_root-HasUserRoot o pointed
            (lookup-insert engine user root inner ∙ lookup-insert python user path o.env),
        rooted_keeps p o.homedir k pointed a
            ∙ lookup-insert engine k root inner
            ∙ ap (λ t. if t then some root else lookup k inner) b
            ∙ lookup-insert python k path o.env
            ∙ ap (λ t. if t then some path else lookup k o.env) c,
      )
