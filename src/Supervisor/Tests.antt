-- ===== src/Supervisor/Tests.antt =====
-- A supervisor that starts an engine, loses it and starts another one.
use vanilla_bus.Prelude.{
  ◌≡◌, refl, true, false, List, [], ◌∷◌, ◌++◌, ◌||◌, arith, none, some, codes,
}
use vanilla_bus.Client.State.{EngineHello}
use vanilla_bus.Supervisor.State.{
  Supervisor, Action, spawns, connects, closes, greets, notifies, ended, arms_timer, offline,
  online, terminate, schedule_restart,
}
use vanilla_bus.Supervisor.Launch.{
  start, restart, launch, launch_at, spawn_engine, attempt_from, attached, stop,
}
use vanilla_bus.Supervisor.{
  starts, restarts, exits, hello_comes, connect_resolves, step, on_exit, on_hello, mark_exit, Reach,
  begin, next,
}
use vanilla_bus.Supervisor.Invariant.{Invariant, is_finished}
use vanilla_bus.Supervisor.Safety.{Reach-Invariant, Reach-one_engine}
use vanilla_bus.Supervisor.Respawn.{exits-respawns}

abbrev hello : EngineHello
hello = record { name = codes "can_engine"; version = codes "1"; backends = [] }

abbrev first : List Action
first =
    spawns 1 (codes "/run/a")
    ∷ connects 1 0
    ∷ greets 1
    ∷ notifies (online hello)
    ∷ ended 1
    ∷ closes 1
    ∷ notifies offline
    ∷ arms_timer
    ∷ spawns 2 (codes "/run/b")
    ∷ connects 2 0
    ∷ []

abbrev second_engine : Supervisor
second_engine = record {
  child = some (record { spawned_by = 2; has_exit_code = false });
  client = none;
  ipc_path = some (codes "/run/b");
  generation = 2;
  heartbeat_log_generation = none;
  stopping = false;
  restart_timer = false;
  status = offline;
}

second_engine-Reach : Reach second_engine first
unfolding step start restart launch launch_at spawn_engine attempt_from attached on_exit on_hello
    schedule_restart
second_engine-Reach =
    next (restarts (some (codes "/run/b")))
      (next (exits 1 true)
        (next (hello_comes 1 hello)
          (next (connect_resolves 1) (next (starts true (some (codes "/run/a"))) begin tt) refl)
          refl)
        refl)
      refl

Reach-Invariant_example : Invariant second_engine first
Reach-Invariant_example = Reach-Invariant second_engine-Reach

exits-respawns_example :
    (let after_exit = (step second_engine (exits 2 false)).0 in
      let relaunched = step after_exit (restarts (some (codes "/run/c"))) in
      (after_exit.status ≡ offline)
      × (after_exit.restart_timer ≡ true)
      × (relaunched.0.generation ≡ 3)
      × (relaunched.0.child ≡ some (record { spawned_by = 3; has_exit_code = false }))
      × (relaunched.1
          ≡ terminate (mark_exit 2 false second_engine.child)
            ++ spawns 3 (codes "/run/c") ∷ connects 3 0 ∷ []))
exits-respawns_example = exits-respawns second_engine false (codes "/run/c") refl

Reach-one_engine_example : (is_finished 1 first || is_finished 2 first) ≡ true
Reach-one_engine_example =
    Reach-one_engine second_engine-Reach 1 2 (λ e. omega (arith, e)) refl refl

-- A connection that comes up after `stop` becomes its client.
late_client : (step (stop second_engine).0 (connect_resolves 2)).0.client ≡ some 2
unfolding step stop attached
late_client = refl
