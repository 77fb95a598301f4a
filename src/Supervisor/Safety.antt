-- ===== src/Supervisor/Safety.antt =====
-- electron/main/engineSupervisor.ts: what holds however the events come.
use vanilla_bus.Prelude.{
  ℕ, ◌+◌, ◌≡◌, ◌≢◌, inl, inr, refl, Bool, true, false, ◌||◌, List, ◌++◌, Option, none, some, Text,
  arith, Bool-cases,
}
use vanilla_bus.Supervisor.State.{Supervisor, Child, Action}
use vanilla_bus.Supervisor.Launch.{start, restart}
use vanilla_bus.Supervisor.{
  Event, starts, stops, restarts, exits, connect_resolves, connect_rejects, wakes, hello_comes,
  beat_comes, disconnect_comes, batch_comes, step, IsEnabled, Reach, begin, next,
}
use vanilla_bus.Supervisor.Reached.{nothing}
use vanilla_bus.Supervisor.Invariant.{
  Invariant, fresh_supervisor-Invariant, is_held, was_spawned, is_finished,
}
use vanilla_bus.Supervisor.Reached.{
  attached-Invariant, attach_failed-Invariant, on_hello-Invariant, on_heartbeat-Invariant,
  on_rx_batch-Invariant, on_disconnect-Invariant, attempt_from-Invariant,
}
use vanilla_bus.Supervisor.Exit.{exits-Invariant}
use vanilla_bus.Supervisor.Relaunch.{stop-Invariant, launch-Invariant}

-- The timer fires only while nobody has stopped the supervisor.
timer-live :
    (s : Supervisor) (done : List Action)
    → Invariant s done
    → s.restart_timer ≡ true
    → s.stopping ≡ false
timer-live s done i set = ground (arith, i.stopped, set)

start-Invariant :
    (s : Supervisor) (done : List Action) (linux : Bool) (path : Option Text)
    → Invariant s done
    → Invariant (start linux path s).0 (done ++ (start linux path s).1)
unfolding start
start-Invariant s done true path i =
    launch-Invariant s (record s { stopping = false }) done path i refl refl refl refl
start-Invariant s done false path i = nothing s done i

step-Invariant :
    (s : Supervisor) (done : List Action) (event : Event)
    → Invariant s done
    → IsEnabled s done event
    → Invariant (step s event).0 (done ++ (step s event).1)
unfolding step restart
step-Invariant s done (starts linux path) i can = start-Invariant s done linux path i
step-Invariant s done stops i can = stop-Invariant s done i
step-Invariant s done (restarts path) i can =
    launch-Invariant s (record s { restart_timer = false }) done path i refl refl refl
      (timer-live s done i can)
step-Invariant s done (exits g by_code) i can = exits-Invariant s done g by_code i can
step-Invariant s done (connect_resolves g) i can = attached-Invariant s done g i
step-Invariant s done (connect_rejects g attempt) i can = attach_failed-Invariant s done g attempt i
step-Invariant s done (wakes g attempt) i can = attempt_from-Invariant s done g (attempt + 1) i
step-Invariant s done (hello_comes g hello) i can = on_hello-Invariant s done g hello i can
step-Invariant s done (beat_comes g ts_us) i can = on_heartbeat-Invariant s done g ts_us i
step-Invariant s done (disconnect_comes g) i can = on_disconnect-Invariant s done g i
step-Invariant s done (batch_comes g batch) i can = on_rx_batch-Invariant s done g batch i

-- In every state that a supervisor reaches: the launches that were made are numbered up to its
-- generation; when it is stopped, it has no child, no restart timer and shows no connection, and its
-- generation is one that was never launched; it shows a connection only together with the engine's
-- hello; a process that was spawned is the child or has ended or was told to; and when it is not
-- stopped, it was never started, its restart timer is set, or the process of its present launch has
-- been spawned and has not ended.
pub Reach-Invariant : {s : Supervisor} {done : List Action} → Reach s done → Invariant s done
Reach-Invariant begin = fresh_supervisor-Invariant
Reach-Invariant (next {s} {done} event r can) = step-Invariant s done event (Reach-Invariant r) can

is_held_unique : (c : Option Child) (g h : ℕ) → is_held g c ≡ true → is_held h c ≡ true → g ≡ h
is_held_unique none g h a b = cc
is_held_unique (some c) g h a b = ground arith

-- In every state that a supervisor reaches, at most one engine process runs on: of two processes
-- that it spawned in different launches, one has ended or was told to.
pub Reach-one_engine :
    {s : Supervisor} {done : List Action}
    → Reach s done
    → (g h : ℕ) → g ≢ h
    → was_spawned g done ≡ true
    → was_spawned h done ≡ true
    → (is_finished g done || is_finished h done) ≡ true
Reach-one_engine {s} {done} r g h other a b =
    let i = Reach-Invariant r in
    elim (Bool-cases (is_finished g done)) [
      | inl over ↦ ground (arith, over)
      | inr runs ↦ elim (Bool-cases (is_finished h done)) [
        | inl over ↦ ground (arith, over)
        | inr also ↦ absurd (
            other (
              is_held_unique s.child g h (ground (arith, i.held g a, runs))
                (ground (arith, i.held h b, also))))
      ]
    ]
