-- ===== src/Supervisor/Relaunch.antt =====
-- electron/main/engineSupervisor.ts: `stop` and the launches keep the invariant.
use vanilla_bus.Prelude.{
  ℕ, ◌+◌, ◌≡◌, inl, inr, refl, sym, ap, ◌∙◌, Bool, true, false, ◌||◌, List, [], ◌∷◌, ◌++◌, Option,
  none, some, Text, arith, if◌then◌else◌, Bool-cases,
}
use mathlib.Core.Path.{subst}
use vanilla_bus.Supervisor.State.{
  Supervisor, Action, spawns, connects, arms_timer, notifies, offline, close_client, terminate,
  schedule_restart, and_then,
}
use vanilla_bus.Supervisor.Launch.{is_stale, attempt_from, spawn_engine, launch_at, launch, stop}
use vanilla_bus.Supervisor.{is_launch}
use vanilla_bus.Supervisor.Invariant.{
  Invariant, new_launch, IsMute, close_client-IsMute, terminate-IsMute, terminate-held, any-append,
  is_held, is_spawn, is_end, is_over, is_finished,
}
use vanilla_bus.Supervisor.Exit.{IsMute-append, silent, notice, arming}

-- letting go of the client and of the child
abbrev pub parting : Supervisor → List Action
parting s = close_client s.client ++ terminate s.child

parting-IsMute : (s : Supervisor) → IsMute (parting s)
parting-IsMute s =
    IsMute-append (close_client s.client) (terminate s.child) (close_client-IsMute s.client)
      (terminate-IsMute s.child)

-- whatever comes next, the child that was held is let go of
parting-held :
    (s : Supervisor) (rest : List Action) (g : ℕ)
    → is_held g s.child ≡ true
    → is_finished g (parting s ++ rest) ≡ true
parting-held s rest g h = ground (
  arith,
  any-append (is_over g) (parting s) rest,
  any-append (is_over g) (close_client s.client) (terminate s.child),
  terminate-held s.child g h,
)

pub stop-Invariant :
    (s : Supervisor) (done : List Action)
    → Invariant s done
    → Invariant (stop s).0 (done ++ (stop s).1)
unfolding stop
stop-Invariant s done i =
    let rest = notifies offline ∷ [] in
    let m = IsMute-append (parting s) rest (parting-IsMute s) (notice offline) in
    new_launch s (stop s).0 done (parting s ++ rest) i refl
      (λ g h. ground (arith, m.no_launch g, h)) (λ g h. ground (arith, m.no_spawn g, h)) m.no_end
      (parting-held s rest) (λ h. (refl, refl, refl)) (inl refl) (λ h. cc)

-- `launch` on a state that differs from the one before only in its flags
launch_fails :
    (s s1 : Supervisor) (done : List Action)
    → Invariant s done
    → s1.generation ≡ s.generation
    → s1.child ≡ s.child
    → s1.status ≡ s.status
    → s1.stopping ≡ false
    → (timer : Bool) → (rest : List Action) → timer ≡ true
    → IsMute rest
    → Invariant
        (record s1 {
          generation = s1.generation + 1;
          client = none;
          child = none;
          restart_timer = timer;
        })
        (done ++ (parting s1 ++ rest))
launch_fails s s1 done i gen child status live timer rest set quiet =
    let m = IsMute-append (parting s1) rest (parting-IsMute s1) quiet in
    new_launch s
      (record s1 {
        generation = s1.generation + 1;
        client = none;
        child = none;
        restart_timer = timer;
      })
      done (parting s1 ++ rest) i (ap (λ n. n + 1) gen) (λ g h. ground (arith, m.no_launch g, h))
      (λ g h. ground (arith, m.no_spawn g, h)) m.no_end
      (λ g h. parting-held s1 rest g (ap (is_held g) child ∙ h))
      (λ h. absurd (ground (arith, h, live)))
      (elim i.honest [ inl e ↦ inl (status ∙ e) | inr (hello, e) ↦ inr (hello, status ∙ e) ])
      (λ h. ground (arith, set))

launch_spawns :
    (s s1 : Supervisor) (done : List Action) (path : Text)
    → Invariant s done
    → s1.generation ≡ s.generation
    → s1.child ≡ s.child
    → s1.status ≡ s.status
    → s1.stopping ≡ false
    → Invariant
        (record s1 {
          generation = s1.generation + 1;
          client = none;
          ipc_path = some path;
          child = some (record { spawned_by = s1.generation + 1; has_exit_code = false });
        })
        (done
          ++ (parting s1 ++ spawns (s1.generation + 1) path ∷ connects (s1.generation + 1) 0 ∷ []))
launch_spawns s s1 done path i gen child status live =
    let g1 = s1.generation + 1 in
    let rest = spawns g1 path ∷ connects g1 0 ∷ [] in
    let m = parting-IsMute s1 in
    new_launch s
      (record s1 {
        generation = g1;
        client = none;
        ipc_path = some path;
        child = some (record { spawned_by = g1; has_exit_code = false });
      })
      done (parting s1 ++ rest) i (ap (λ n. n + 1) gen)
      (λ g h.
        (ground (arith, any-append (is_launch g) (parting s1) rest, m.no_launch g, h, gen), live))
      (λ g h. ground (arith, any-append (is_spawn g) (parting s1) rest, m.no_spawn g, h))
      (λ g. ground (arith, any-append (is_end g) (parting s1) rest, m.no_end g))
      (λ g h. parting-held s1 rest g (ap (is_held g) child ∙ h))
      (λ h. absurd (ground (arith, h, live)))
      (elim i.honest [ inl e ↦ inl (status ∙ e) | inr (hello, e) ↦ inr (hello, status ∙ e) ])
      (λ h. ground (arith, gen, any-append (is_spawn (s.generation + 1)) (parting s1) rest))

-- the first attempt of a launch is made
pub attempt_from-first :
    (g : ℕ) (s : Supervisor)
    → s.stopping ≡ false
    → is_stale g s ≡ false
    → attempt_from g 0 s ≡ (s, connects g 0 ∷ [])
unfolding attempt_from
attempt_from-first g s live e = rw (live, e, attempt_from) refl

pub if_false : (b : Bool) (x y : Supervisor × List Action) → b ≡ false → (if b then x else y) ≡ y
if_false b x y e = rw e refl

pub if_true : (b : Bool) (x y : Supervisor × List Action) → b ≡ true → (if b then x else y) ≡ x
if_true b x y e = rw e refl

abbrev KeepsAfter : List Action → Supervisor × List Action → Type 0
KeepsAfter done r = Invariant r.0 (done ++ r.1)

launch_at-Invariant :
    (s s1 : Supervisor) (done : List Action) (path : Option Text)
    → Invariant s done
    → s1.generation ≡ s.generation
    → s1.child ≡ s.child
    → s1.status ≡ s.status
    → s1.stopping ≡ false
    → (let g1 = s1.generation + 1 in
        let bare : Supervisor = record s1 { generation = g1; client = none; child = none } in
        KeepsAfter done (and_then (bare, parting s1) (launch_at g1 path)))
unfolding launch_at schedule_restart spawn_engine
launch_at-Invariant s s1 done none i gen child status live =
    let bare : Supervisor = record s1 {
      generation = s1.generation + 1;
      client = none;
      child = none;
    } in
    let set : Supervisor = record bare { restart_timer = true } in
    let P : Supervisor × List Action → Type 0 = λ r. KeepsAfter done (r.0, parting s1 ++ r.1) in
    elim (Bool-cases (s1.stopping || s1.restart_timer)) [
      | inl e ↦ subst P (sym (if_true _ (bare, []) (set, arms_timer ∷ []) e)) (
          launch_fails s s1 done i gen child status live s1.restart_timer []
            (ground (arith, e, live)) silent)
      | inr e ↦
          subst P (sym (if_false _ (bare, []) (set, arms_timer ∷ []) e))
            (launch_fails s s1 done i gen child status live true (arms_timer ∷ []) refl arming)
    ]
launch_at-Invariant s s1 done (some path) i gen child status live =
    let g1 = s1.generation + 1 in
    let next : Supervisor = record s1 {
      generation = g1;
      client = none;
      ipc_path = some path;
      child = some (record { spawned_by = g1; has_exit_code = false });
    } in
    subst (λ r. KeepsAfter done (r.0, parting s1 ++ spawns g1 path ∷ r.1))
      (sym (attempt_from-first g1 next live (ground arith)))
      (launch_spawns s s1 done path i gen child status live)

pub launch-Invariant :
    (s s1 : Supervisor) (done : List Action) (path : Option Text)
    → Invariant s done
    → s1.generation ≡ s.generation
    → s1.child ≡ s.child
    → s1.status ≡ s.status
    → s1.stopping ≡ false
    → KeepsAfter done (launch path s1)
unfolding launch
launch-Invariant s s1 done path i gen child status live =
    subst (KeepsAfter done) (sym (if_false s1.stopping (s1, []) _ live))
      (launch_at-Invariant s s1 done path i gen child status live)
