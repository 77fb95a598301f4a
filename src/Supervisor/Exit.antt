-- ===== src/Supervisor/Exit.antt =====
-- electron/main/engineSupervisor.ts: the end of a process keeps the invariant.
use vanilla_bus.Prelude.{
  ℕ, ◌≡◌, inl, inr, refl, sym, ap, ◌∙◌, Bool, true, false, ◌||◌, List, [], ◌∷◌, ◌++◌, Option, none,
  some, arith, Bool-cases,
}
use vanilla_bus.Supervisor.State.{
  Supervisor, Child, Action, EngineStatus, arms_timer, notifies, ended, offline, close_client,
  schedule_restart,
}
use vanilla_bus.Supervisor.Launch.{is_stale}
use vanilla_bus.Supervisor.{is_launch, was_launched, exits, step, mark_exit, on_exit}
use vanilla_bus.Supervisor.Reached.{present}
use vanilla_bus.Supervisor.Invariant.{
  Invariant, same_launch, IsMute, close_client-IsMute, any-append, is_held, is_spawn, is_end,
  is_finished,
}

pub IsMute-append : (xs ys : List Action) → IsMute xs → IsMute ys → IsMute (xs ++ ys)
IsMute-append xs ys m n = record {
  no_launch = λ g. ground (arith, any-append (is_launch g) xs ys, m.no_launch g, n.no_launch g);
  no_spawn = λ g. ground (arith, any-append (is_spawn g) xs ys, m.no_spawn g, n.no_spawn g);
  no_end = λ g. ground (arith, any-append (is_end g) xs ys, m.no_end g, n.no_end g);
}

pub silent : IsMute []
silent = record { no_launch = λ h. refl; no_spawn = λ h. refl; no_end = λ h. refl }

pub notice : (status : EngineStatus) → IsMute (notifies status ∷ [])
notice status = record { no_launch = λ h. refl; no_spawn = λ h. refl; no_end = λ h. refl }

pub arming : IsMute (arms_timer ∷ [])
arming = record { no_launch = λ h. refl; no_spawn = λ h. refl; no_end = λ h. refl }

mark_exit-held :
    (c : Option Child) (g h : ℕ) (by_code : Bool) (rest : List Action)
    → is_held h c ≡ true
    → (is_held h (mark_exit g by_code c) || is_finished h (ended g ∷ rest)) ≡ true
mark_exit-held none g h by_code rest k = cc
mark_exit-held (some c) g h by_code rest k = ground arith

-- the end of the process of the present launch, with the timer set afterwards
ended_present :
    (s : Supervisor) (done rest : List Action) (g : ℕ) (by_code timer : Bool)
    → Invariant s done
    → was_launched g done ≡ true
    → s.stopping ≡ false
    → IsMute rest
    → timer ≡ true
    → Invariant
        (record s {
          child = mark_exit g by_code s.child;
          client = none;
          status = offline;
          restart_timer = timer;
        })
        (done ++ ended g ∷ rest)
ended_present s done rest g by_code timer i known live m set =
    same_launch s
      (record s {
        child = mark_exit g by_code s.child;
        client = none;
        status = offline;
        restart_timer = timer;
      })
      done (ended g ∷ rest) i refl refl (λ h k. ground (arith, m.no_launch h, k))
      (λ h. m.no_spawn h)
      (λ h k.
        let same : g ≡ h = ground (arith, k, m.no_end h) in
        ap (λ n. was_launched n done) (sym same) ∙ known)
      (λ k. ground (arith, set)) (λ k. set) (λ h k. mark_exit-held s.child g h by_code rest k)
      (λ k. absurd (ground (arith, live, k))) (inl refl)

ended_stale :
    (s : Supervisor) (done : List Action) (g : ℕ) (by_code : Bool)
    → Invariant s done
    → was_launched g done ≡ true
    → is_stale g s ≡ true
    → Invariant (record s { child = mark_exit g by_code s.child }) (done ++ ended g ∷ [])
ended_stale s done g by_code i known e =
    same_launch s (record s { child = mark_exit g by_code s.child }) done (ended g ∷ []) i refl refl
      (λ h k. ground (arith, k)) (λ h. refl)
      (λ h k.
        let same : g ≡ h = ground (arith, k) in ap (λ n. was_launched n done) (sym same) ∙ known)
      (λ k. ground (arith, e, k)) (λ k. k) (λ h k. mark_exit-held s.child g h by_code [] k)
      (λ k. let (c, t, quiet) = i.stopped k in (ap (mark_exit g by_code) c, t, quiet)) i.honest

pub exits-Invariant :
    (s : Supervisor) (done : List Action) (g : ℕ) (by_code : Bool)
    → Invariant s done
    → was_launched g done ≡ true
    → Invariant (step s (exits g by_code)).0 (done ++ (step s (exits g by_code)).1)
unfolding step on_exit schedule_restart
exits-Invariant s done g by_code i known = elim (Bool-cases (is_stale g s)) [
  | inl e ↦ rw (e, on_exit) (ended_stale s done g by_code i known e)
  | inr e ↦
      let (same, live) = present s done g i known e in
      let closing =
        IsMute-append (close_client s.client) _ (close_client-IsMute s.client) (notice offline) in
      elim (Bool-cases (s.stopping || s.restart_timer)) [
        | inl old ↦
            rw (e, old, on_exit, schedule_restart)
              (ended_present s done _ g by_code s.restart_timer i known live
                (IsMute-append _ [] closing silent) (ground (arith, old, live)))
        | inr new ↦
            rw (e, new, on_exit, schedule_restart)
              (ended_present s done _ g by_code true i known live
                (IsMute-append _ (arms_timer ∷ []) closing arming) refl)
      ]
]
