-- ===== src/Graph/Decimate/Groups.antt =====
-- shared/graphDecimate.ts: the points in groups, of which `decimatePoints` keeps the latest.
use vanilla_bus.Prelude.{
  ℕ, ◌+◌, ◌≤◌, ◌<◌, ◌≡◌, refl, sym, ap, ◌∙◌, List, [], ◌∷◌, ◌++◌, some, arith, ltb, All,
  append_assoc, if◌then◌else◌, Bool-cases, inl, inr,
}
use vanilla_bus.Prelude.Int.{pos, sub_ℕ, ltb_ℤ}
use vanilla_bus.Graph.Decimate.{Sample, replace_last, decimate_from, decimate_points}

-- a point that opens a group, and those that follow it there
abbrev pub Group {ℓ} : Type ℓ → Type ℓ
Group V = Sample V × List (Sample V)

same_test :
    (start now interval : ℕ) → ltb_ℤ (sub_ℕ now start) (pos interval) ≡ ltb now (start + interval)
same_test start now interval = ground arith

module _ {ℓ} {V : Type ℓ} where
  abbrev pub ungrouped : List (Group V) → List (Sample V)
  ungrouped [] = []
  ungrouped ((p, rest) ∷ groups) = p ∷ rest ++ ungrouped groups

  abbrev pub latest : Sample V → List (Sample V) → Sample V
  latest p [] = p
  latest p (q ∷ rest) = latest q rest

  abbrev pub latest_of : List (Group V) → List (Sample V)
  latest_of [] = []
  latest_of ((p, rest) ∷ groups) = latest p rest ∷ latest_of groups

  -- Every point of a group is less than an interval after its first, and the first of the next
  -- group is not.
  abbrev pub AreApart : ℕ → ℕ → List (Group V) → Type 0
  AreApart interval bound [] = Unit
  AreApart interval bound ((p, rest) ∷ groups) =
      (bound ≤ p.ts_us)
      × All (λ (q : Sample V). q.ts_us < p.ts_us + interval) rest
      × AreApart interval (p.ts_us + interval) groups

  -- the groups, with the one that is open
  groups_from : ℕ → Sample V → List (Sample V) → List (Sample V) → List (Group V)
  groups_from interval p rest [] = (p, rest) ∷ []
  groups_from interval p rest (q ∷ points) =
      if ltb q.ts_us (p.ts_us + interval)
      then groups_from interval p (rest ++ q ∷ []) points
      else (p, rest) ∷ groups_from interval q [] points

  latest-snoc : (p q : Sample V) (rest : List (Sample V)) → latest p (rest ++ q ∷ []) ≡ q
  latest-snoc p q [] = refl
  latest-snoc p q (r ∷ rest) = latest-snoc r q rest

  replace_last-snoc :
      (out : List (Sample V)) (p q : Sample V) → replace_last (out ++ p ∷ []) q ≡ out ++ q ∷ []
  replace_last-snoc [] p q = refl
  replace_last-snoc (x ∷ []) p q = refl
  replace_last-snoc (x ∷ y ∷ out) p q = ap (◌∷◌ x) (replace_last-snoc (y ∷ out) p q)

  decimate_from-groups_from :
      (interval : ℕ) (p : Sample V) (rest points out : List (Sample V))
      → decimate_from interval points (out ++ latest p rest ∷ []) (some p.ts_us)
        ≡ out ++ latest_of (groups_from interval p rest points)
  unfolding decimate_from groups_from
  decimate_from-groups_from interval p rest [] out = refl
  decimate_from-groups_from interval p rest (q ∷ points) out =
      elim (Bool-cases (ltb q.ts_us (p.ts_us + interval))) [
        | inl e ↦
            rw (same_test p.ts_us q.ts_us interval, e, groups_from, decimate_from)
              (ap (λ o. decimate_from interval points o (some p.ts_us))
                  (replace_last-snoc out (latest p rest) q
                    ∙ ap (λ l. out ++ l ∷ []) (sym (latest-snoc p q rest)))
                ∙ decimate_from-groups_from interval p (rest ++ q ∷ []) points out)
        | inr e ↦
            rw (same_test p.ts_us q.ts_us interval, e, groups_from, decimate_from)
              (decimate_from-groups_from interval q [] points (out ++ latest p rest ∷ [])
                ∙ append_assoc out (latest p rest ∷ [])
                    (latest_of (groups_from interval q [] points)))
      ]

  ungrouped-groups_from :
      (interval : ℕ) (p : Sample V) (rest points : List (Sample V))
      → ungrouped (groups_from interval p rest points) ≡ p ∷ rest ++ points
  unfolding groups_from
  ungrouped-groups_from interval p rest [] = refl
  ungrouped-groups_from interval p rest (q ∷ points) =
      elim (Bool-cases (ltb q.ts_us (p.ts_us + interval))) [
        | inl e ↦
            rw (e, groups_from)
              (ungrouped-groups_from interval p (rest ++ q ∷ []) points
                ∙ ap (◌∷◌ p) (append_assoc rest (q ∷ []) points))
        | inr e ↦
            rw (e, groups_from)
              (ap (λ l. p ∷ rest ++ l) (ungrouped-groups_from interval q [] points))
      ]

  All-snoc :
      (bound : ℕ) (rest : List (Sample V)) (q : Sample V)
      → All (λ (r : Sample V). r.ts_us < bound) rest
      → q.ts_us < bound
      → All (λ (r : Sample V). r.ts_us < bound) (rest ++ q ∷ [])
  All-snoc bound [] q h k = (k, tt)
  All-snoc bound (r ∷ rest) q h k = (h.0, All-snoc bound rest q h.1 k)

  groups_from-AreApart :
      (interval bound : ℕ) (p : Sample V) (rest points : List (Sample V))
      → bound ≤ p.ts_us
      → All (λ (q : Sample V). q.ts_us < p.ts_us + interval) rest
      → AreApart interval bound (groups_from interval p rest points)
  unfolding groups_from
  groups_from-AreApart interval bound p rest [] h k = (h, k, tt)
  groups_from-AreApart interval bound p rest (q ∷ points) h k =
      elim (Bool-cases (ltb q.ts_us (p.ts_us + interval))) [
        | inl e ↦
            rw (e, groups_from)
              (groups_from-AreApart interval bound p (rest ++ q ∷ []) points h
                (All-snoc (p.ts_us + interval) rest q k (ground arith)))
        | inr e ↦
            rw (e, groups_from)
              (
                h,
                k,
                groups_from-AreApart interval (p.ts_us + interval) q [] points (ground arith) tt,
              )
      ]

  -- The points that `decimatePoints` returns are the latest ones of groups, in order: the groups are
  -- the points cut into runs, in each of which every point is less than an interval after the first,
  -- and the first point of the next run is at least an interval after it.
  pub decimate_points-AreApart :
      (points : List (Sample V)) (interval : ℕ)
      → (groups : List (Group V)) × (ungrouped groups ≡ points)
        × AreApart interval 0 groups
        × (decimate_points points interval ≡ latest_of groups)
  unfolding decimate_points decimate_from
  decimate_points-AreApart [] interval = ([], refl, tt, refl)
  decimate_points-AreApart (p ∷ points) interval = (
    groups_from interval p [] points,
    ungrouped-groups_from interval p [] points,
    groups_from-AreApart interval 0 p [] points (omega arith) tt,
    decimate_from-groups_from interval p [] points [],
  )
