-- ===== src/Persist/Hints/Merge.antt =====
-- shared/persist.ts: `mergeRememberedNames`.
use vanilla_bus.Prelude.{
  ◌≡◌, true, ◌||◌, List, [], ◌∷◌, Text, arith, length, contains, ◌==◌, All, Bool-cases, inl, inr,
}
use vanilla_bus.Prelude.Strings.{same_refl, trim}
use vanilla_bus.Prelude.Assoc.{IsDistinct, IsDistinct-snoc, contains-append}
use vanilla_bus.Persist.{PersistedBusHint}
use vanilla_bus.Persist.Sanitize.{names}
use vanilla_bus.Persist.Hints.{push_name, push_names, merge_remembered_names}

-- a name that is blank, or that the list has
abbrev pub Offered : List Text → Text → Type 0
Offered seen name = (length (trim name) == 0 || contains (trim name) seen) ≡ true

push_name-IsDistinct :
    (seen : List Text) (name : Text) → IsDistinct seen → IsDistinct (push_name seen name)
unfolding push_name
push_name-IsDistinct seen name d =
    elim (Bool-cases (length (trim name) == 0 || contains (trim name) seen)) [
      | inl e ↦ rw e d
      | inr e ↦ rw e (IsDistinct-snoc seen (trim name) d (ground arith))
    ]

push_names-IsDistinct :
    (seen later : List Text) → IsDistinct seen → IsDistinct (push_names seen later)
unfolding push_names
push_names-IsDistinct seen [] d = d
push_names-IsDistinct seen (name ∷ later) d =
    push_names-IsDistinct (push_name seen name) later (push_name-IsDistinct seen name d)

push_name-Offered : (seen : List Text) (name : Text) → Offered (push_name seen name) name
unfolding push_name
push_name-Offered seen name =
    ground (arith, contains-append (trim name) seen (trim name ∷ []), same_refl (trim name))

-- A name that is offered stays offered.
push_name-keeps :
    (seen : List Text) (k name : Text) → Offered seen k → Offered (push_name seen name) k
unfolding push_name
push_name-keeps seen k name h = ground (arith, contains-append (trim k) seen (trim name ∷ []))

push_names-keeps :
    (seen later : List Text) (k : Text) → Offered seen k → Offered (push_names seen later) k
unfolding push_names
push_names-keeps seen [] k h = h
push_names-keeps seen (name ∷ later) k h =
    push_names-keeps (push_name seen name) later k (push_name-keeps seen k name h)

push_names-Offered : (seen later : List Text) → All (Offered (push_names seen later)) later
unfolding push_names
push_names-Offered seen [] = tt
push_names-Offered seen (name ∷ later) = (
  push_names-keeps (push_name seen name) later name (push_name-Offered seen name),
  push_names-Offered (push_name seen name) later,
)

push_name-All :
    (seen : List Text) (name : Text) (ks : List Text)
    → All (Offered seen) ks
    → All (Offered (push_name seen name)) ks
push_name-All seen name [] h = tt
push_name-All seen name (k ∷ ks) (h, hs) =
    (push_name-keeps seen k name h, push_name-All seen name ks hs)

push_names-All :
    (seen later ks : List Text) → All (Offered seen) ks → All (Offered (push_names seen later)) ks
push_names-All seen later [] h = tt
push_names-All seen later (k ∷ ks) (h, hs) =
    (push_names-keeps seen later k h, push_names-All seen later ks hs)

-- The merged list has no name twice, and offers every listed name, every remembered name and the
-- selected name that is not blank, under its trimmed form.
pub merge_remembered_names-Offered :
    (listed : List Text) (remembered : List PersistedBusHint) (selected : Text)
    → let merged = merge_remembered_names listed remembered selected in
      IsDistinct merged
      × All (Offered merged) listed
      × All (Offered merged) (names remembered)
      × Offered merged selected
unfolding merge_remembered_names
merge_remembered_names-Offered listed remembered selected =
    let first = push_names [] listed in
    let second = push_names first (names remembered) in
    (
      push_name-IsDistinct second selected
          (push_names-IsDistinct first (names remembered) (push_names-IsDistinct [] listed tt)),
      push_name-All second selected listed
          (push_names-All first (names remembered) listed (push_names-Offered [] listed)),
      push_name-All second selected (names remembered)
          (push_names-Offered first (names remembered)),
      push_name-Offered second selected,
    )
