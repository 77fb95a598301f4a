-- ===== src/Supervisor/Respawn.antt =====
-- electron/main/engineSupervisor.ts: from the end of a process to the next one.
use vanilla_bus.Prelude.{
  ◌+◌, ◌≡◌, inl, inr, ap, ◌∙◌, Bool, true, false, ◌||◌, [], ◌∷◌, ◌++◌, none, some, Text, arith,
  Bool-cases,
}
use vanilla_bus.Supervisor.State.{
  Supervisor, spawns, connects, arms_timer, notifies, offline, close_client, terminate,
  schedule_restart, and_then,
}
use vanilla_bus.Supervisor.Launch.{is_stale, spawn_engine, launch_at, launch, restart}
use vanilla_bus.Supervisor.{restarts, exits, step, mark_exit, on_exit}
use vanilla_bus.Supervisor.Relaunch.{if_true, if_false, attempt_from-first, parting}

schedule_restart-arms :
    (s : Supervisor)
    → s.stopping ≡ false
    → (schedule_restart s).0 ≡ record s { restart_timer = true }
unfolding schedule_restart
schedule_restart-arms s live =
    let set : Supervisor = record s { restart_timer = true } in
    elim (Bool-cases s.restart_timer) [
      | inl t ↦
          ap (λ r. r.0)
            (if_true (s.stopping || s.restart_timer) (s, []) (set, arms_timer ∷ [])
              (ground (arith, t)))
          ∙ ap (λ b. (record s { restart_timer = b })) t
      | inr t ↦
          ap (λ r. r.0)
            (if_false (s.stopping || s.restart_timer) (s, []) (set, arms_timer ∷ [])
              (ground (arith, t, live)))
    ]

on_exit-arms :
    (s : Supervisor)
    → s.stopping ≡ false
    → (on_exit s.generation s).0
      ≡ record s { client = none; status = offline; restart_timer = true }
unfolding on_exit
on_exit-arms s live =
    let gone : Supervisor = record s { client = none; status = offline } in
    ap (λ r. r.0)
      (if_false (is_stale s.generation s) (s, [])
        (and_then (gone, close_client s.client ++ notifies offline ∷ []) schedule_restart)
        (ground arith))
    ∙ schedule_restart-arms gone live

-- a launch that gets a path spawns a process and makes its first attempt to connect
launch-spawns :
    (s : Supervisor) (path : Text)
    → s.stopping ≡ false
    → (let g = s.generation + 1 in
        launch (some path) s ≡ (
          record s {
            generation = g;
            client = none;
            ipc_path = some path;
            child = some (record { spawned_by = g; has_exit_code = false });
          },
          parting s ++ spawns g path ∷ connects g 0 ∷ [],
        ))
unfolding launch launch_at spawn_engine
launch-spawns s path live =
    let g = s.generation + 1 in
    let spawned : Supervisor = record s {
      generation = g;
      client = none;
      ipc_path = some path;
      child = some (record { spawned_by = g; has_exit_code = false });
    } in
    if_false s.stopping (s, []) _ live
    ∙ ap (λ r. (r.0, parting s ++ spawns g path ∷ r.1))
        (attempt_from-first g spawned live (ground arith))

-- Of a supervisor that is not stopped: when the process of its present launch exits, however it
-- does, no connection is shown and the restart timer is set; when that fires and a socket path can
-- be made, a process is spawned for the next generation, it becomes the child, and the first attempt
-- to connect to it is made.
pub exits-respawns :
    (s : Supervisor) (by_code : Bool) (path : Text)
    → s.stopping ≡ false
    → (let g = s.generation + 1 in
        let after_exit = (step s (exits s.generation by_code)).0 in
        let relaunched = step after_exit (restarts (some path)) in
        (after_exit.status ≡ offline)
        × (after_exit.restart_timer ≡ true)
        × (relaunched.0.generation ≡ g)
        × (relaunched.0.child ≡ some (record { spawned_by = g; has_exit_code = false }))
        × (relaunched.1
            ≡ terminate (mark_exit s.generation by_code s.child)
              ++ spawns g path ∷ connects g 0 ∷ []))
unfolding step restart
exits-respawns s by_code path live =
    let marked : Supervisor = record s { child = mark_exit s.generation by_code s.child } in
    let exited = on_exit-arms marked live in
    let waiting : Supervisor = record marked {
      client = none;
      status = offline;
      restart_timer = false;
    } in
    let again =
      ap (λ (t : Supervisor). launch (some path) (record t { restart_timer = false })) exited
      ∙ launch-spawns waiting path live in
    (
      ap (λ t. t.status) exited,
      ap (λ t. t.restart_timer) exited,
      ap (λ r. r.0.generation) again,
      ap (λ r. r.0.child) again,
      ap (λ r. r.1) again,
    )
