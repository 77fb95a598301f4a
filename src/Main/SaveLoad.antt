-- ===== src/Main/SaveLoad.antt =====
-- electron/main/userStore.ts: what was saved is loaded.
use vanilla_bus.Prelude.{
  ℕ, ◌≡◌, ◌≢◌, refl, sym, ap, ◌∙◌, Bool, true, false, ◌++◌, none, some, Text, codes, arith, length,
  length-append, Bool-cases, inl, inr, if◌then◌else◌,
}
use mathlib.Core.Option.{some-injective}
use vanilla_bus.Persist.{PersistSnapshot}
use vanilla_bus.Persist.Sanitize.{sanitize_persist}
use vanilla_bus.Persist.Build.{of_snapshot}
use vanilla_bus.Persist.Sound.{IsSnapshot}
use vanilla_bus.Persist.Restore.{IsTidy, sanitize_persist-of_snapshot}
use vanilla_bus.Trace.Format.{to_string}
use vanilla_bus.Main.Host.{FileSystem, IsFileSystem, JsonText, ReadsBack}
use vanilla_bus.Main.UserStore.{
  parsed, read_text, load, tmp_path, body_of, in_turn, replace, save_body, save,
}

module _ (fs : FileSystem) (json : JsonText) (dirname : Text → Text) (pid : ℕ)
    (laws : IsFileSystem fs) where
  tmp_path-ne : (path : Text) → path ≢ tmp_path fs json dirname pid path
  tmp_path-ne path e =
      let dotted = path ++ codes "." in
      let numbered = dotted ++ to_string 10 pid in
      omega (
        arith,
        ap length e,
        length-append numbered (codes ".tmp"),
        length-append dotted (to_string 10 pid),
        length-append path (codes "."),
      )

  -- after a replacement that went through, the file has what the temporary one had
  replace-reads :
      (path : Text) (disk : fs.Disk)
      → (replace fs json dirname pid path disk).1 ≡ true
      → fs.read (replace fs json dirname pid path disk).0 path
        ≡ fs.read disk (tmp_path fs json dirname pid path)
  unfolding replace
  replace-reads path disk h =
      let tmp = tmp_path fs json dirname pid path in
      let first = fs.rename disk tmp path in
      elim (Bool-cases first.1) [
        | inl e ↦ rw (e, replace) (laws.renamed disk tmp path e)
        | inr e ↦
            let again = (fs.unlink first.0 path).0 in
            rw (e, replace)
              (laws.renamed again tmp path (ground (arith, e))
                ∙ laws.unlinks_one first.0 path tmp (tmp_path-ne path)
                ∙ laws.not_renamed disk tmp path tmp e)
      ]

  -- three calls in a row that all went through
  in_a_row :
      (a b : Bool) (x y z : fs.Disk × Bool)
      → x.1 ≡ a
      → y.1 ≡ b
      → (in_turn a b x y z).1 ≡ true
      → (b ≡ true) × (in_turn a b x y z ≡ z)
  in_a_row false b x y z p q h = absurd (ground (arith, p, h))
  in_a_row true false x y z p q h = absurd (ground (arith, q, h))
  in_a_row true true x y z p q h = (refl, refl)

  save_body-reads :
      (path body : Text) (disk : fs.Disk)
      → (save_body fs json dirname pid path body disk).1 ≡ true
      → fs.read (save_body fs json dirname pid path body disk).0 path ≡ some body
  save_body-reads path body disk h =
      let made = fs.make_directory disk (dirname path) in
      let tmp = tmp_path fs json dirname pid path in
      let put = fs.write made.0 tmp body in
      let (wrote, e) =
        in_a_row made.1 put.1 made put (replace fs json dirname pid path put.0) refl refl h in
      ap (λ r. fs.read r.0 path) e
      ∙ replace-reads path put.0 (sym (ap (λ r. r.1) e) ∙ h)
      ∙ laws.written made.0 tmp body wrote

  load-reads :
      (path : Text) (disk : fs.Disk) (s : PersistSnapshot)
      → IsSnapshot s
      → IsTidy s
      → ReadsBack json (of_snapshot s)
      → fs.read disk path ≡ some (body_of fs json dirname pid s)
      → load fs json dirname pid path disk ≡ s
  unfolding load
  load-reads path disk s h t codec e =
      ap (read_text fs json dirname pid) e ∙ ap parsed codec ∙ sanitize_persist-of_snapshot s h t

  returned :
      (b : Bool) (n next : PersistSnapshot)
      → (if b then some n else none) ≡ some next
      → (b ≡ true) × (n ≡ next)
  returned true n next h = (refl, some-injective n next h)
  returned false n next h = cc

  -- For a snapshot within the bounds, in which no text has white space at its ends and no text that
  -- has a default is empty, and whose object the runtime's `JSON.parse` reads back from what
  -- `JSON.stringify` wrote: a save without an exception returns it as it is, and a load after it gives
  -- it, also where the file had to be removed before the rename.
  pub save-load :
      (path : Text) (disk : fs.Disk) (s next : PersistSnapshot)
      → IsSnapshot s
      → IsTidy s
      → ReadsBack json (of_snapshot s)
      → (save fs json dirname pid path s disk).1 ≡ some next
      → (next ≡ s) × (load fs json dirname pid path (save fs json dirname pid path s disk).0 ≡ s)
  unfolding save
  save-load path disk s next h t codec saved =
      let n = sanitize_persist (of_snapshot s) in
      let kept = sanitize_persist-of_snapshot s h t in
      let r = save_body fs json dirname pid path (body_of fs json dirname pid n) disk in
      let (through, same_next) = returned r.1 n next saved in
      let there = save_body-reads path (body_of fs json dirname pid n) disk through in
      (
        sym same_next ∙ kept,
        load-reads path r.0 s h t codec
            (there ∙ ap (λ k. some (body_of fs json dirname pid k)) kept),
      )
