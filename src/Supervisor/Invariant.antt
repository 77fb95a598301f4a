-- ===== src/Supervisor/Invariant.antt =====
-- electron/main/engineSupervisor.ts: what holds in every state that a supervisor reaches.
use vanilla_bus.Prelude.{
  ℕ, ◌+◌, ◌≤◌, ◌≡◌, ◌⊎◌, inl, refl, sym, ap, ◌∙◌, Bool, true, false, ◌||◌, ◌&&◌, not, List, [], ◌∷◌,
  ◌++◌, any, Option, none, some, arith, ◌==◌,
}
use vanilla_bus.Client.State.{EngineHello}
use vanilla_bus.Supervisor.State.{
  Supervisor, Child, Action, spawns, kills, ended, offline, online, close_client, terminate,
  fresh_supervisor,
}
use vanilla_bus.Supervisor.{is_launch, was_launched}

-- the marks that actions leave on a launch: its process was spawned, has ended, has ended or was
-- told to
abbrev pub is_spawn : ℕ → Action → Bool
is_spawn g (spawns h path) = h == g
is_spawn g _ = false

abbrev pub is_end : ℕ → Action → Bool
is_end g (ended h) = h == g
is_end g _ = false

abbrev pub is_over : ℕ → Action → Bool
is_over g (ended h) = h == g
is_over g (kills h) = h == g
is_over g _ = false

abbrev pub was_spawned : ℕ → List Action → Bool
was_spawned g = any (is_spawn g)

abbrev pub has_ended : ℕ → List Action → Bool
has_ended g = any (is_end g)

abbrev pub is_finished : ℕ → List Action → Bool
is_finished g = any (is_over g)

-- the child that the supervisor holds on to
abbrev pub is_held : ℕ → Option Child → Bool
is_held g none = false
is_held g (some child) = child.spawned_by == g && not child.has_exit_code

-- Someone looks after the engine: it was never started, the restart timer is set, or the process of
-- the present launch has not ended.
abbrev pub is_supervised : Supervisor → List Action → Bool
is_supervised s done =
    s.generation == 0
    || s.restart_timer
    || (was_spawned s.generation done && not (has_ended s.generation done))

pub record Invariant (s : Supervisor) (done : List Action) : Type 0 where
  pub launched : (g : ℕ) → was_launched g done ≡ true → g ≤ s.generation
  pub known : (g : ℕ) → has_ended g done ≡ true → was_launched g done ≡ true
  pub stopped_new : s.stopping ≡ true → was_launched s.generation done ≡ false
  pub stopped :
      s.stopping ≡ true → (s.child ≡ none) × (s.restart_timer ≡ false) × (s.status ≡ offline)
  pub honest : (s.status ≡ offline) ⊎ ((hello : EngineHello) × (s.status ≡ online hello))
  pub held : (g : ℕ) → was_spawned g done ≡ true → (is_held g s.child || is_finished g done) ≡ true
  pub supervised : s.stopping ≡ false → is_supervised s done ≡ true

pub fresh_supervisor-Invariant : Invariant fresh_supervisor []
fresh_supervisor-Invariant = record {
  launched = λ g h. cc;
  known = λ g h. cc;
  stopped_new = λ h. refl;
  stopped = λ h. cc;
  honest = inl refl;
  held = λ g h. cc;
  supervised = λ h. refl;
}

pub any-append :
    (p : Action → Bool) (xs ys : List Action) → any p (xs ++ ys) ≡ (any p xs || any p ys)
any-append p [] ys = refl
any-append p (x ∷ xs) ys = ground (arith, any-append p xs ys)

-- what does not concern a launch
pub record IsMute (acts : List Action) : Type 0 where
  pub no_launch : (g : ℕ) → was_launched g acts ≡ false
  pub no_spawn : (g : ℕ) → was_spawned g acts ≡ false
  pub no_end : (g : ℕ) → has_ended g acts ≡ false

pub close_client-IsMute : (c : Option ℕ) → IsMute (close_client c)
close_client-IsMute none = record {
  no_launch = λ g. refl;
  no_spawn = λ g. refl;
  no_end = λ g. refl;
}
close_client-IsMute (some g) = record {
  no_launch = λ g. refl;
  no_spawn = λ g. refl;
  no_end = λ g. refl;
}

pub terminate-IsMute : (c : Option Child) → IsMute (terminate c)
terminate-IsMute none = record { no_launch = λ g. refl; no_spawn = λ g. refl; no_end = λ g. refl }
terminate-IsMute (some c) = record {
  no_launch = λ g. ground arith;
  no_spawn = λ g. ground arith;
  no_end = λ g. ground arith;
}

-- a child that is let go of has ended, or is told to end
pub terminate-held :
    (c : Option Child) (g : ℕ) → is_held g c ≡ true → is_finished g (terminate c) ≡ true
terminate-held none g h = cc
terminate-held (some c) g h = ground arith

-- A step within a launch. It may connect, if it is the present launch.
pub same_launch :
    (s s2 : Supervisor) (done acts : List Action)
    → Invariant s done
    → s2.generation ≡ s.generation
    → s2.stopping ≡ s.stopping
    → ((g : ℕ) → was_launched g acts ≡ true → (g ≡ s.generation) × (s.stopping ≡ false))
    → ((g : ℕ) → was_spawned g acts ≡ false)
    → ((g : ℕ) → has_ended g acts ≡ true → was_launched g done ≡ true)
    → (has_ended s.generation acts ≡ true → (s.stopping || s2.restart_timer) ≡ true)
    → (s.restart_timer ≡ true → s2.restart_timer ≡ true)
    → ((g : ℕ) → is_held g s.child ≡ true → (is_held g s2.child || is_finished g acts) ≡ true)
    → (s.stopping ≡ true → (s2.child ≡ none) × (s2.restart_timer ≡ false) × (s2.status ≡ offline))
    → (s2.status ≡ offline) ⊎ ((hello : EngineHello) × (s2.status ≡ online hello))
    → Invariant s2 (done ++ acts)
same_launch s s2 done acts i gen stop fresh no_spawn known ends timer held quiet status = record {
  launched = λ g h. ground (arith, gen, any-append (is_launch g) done acts, fresh g, i.launched g);
  known = λ g h. ground (
    arith,
    any-append (is_launch g) done acts,
    any-append (is_end g) done acts,
    known g,
    i.known g,
  );
  stopped_new = λ h.
      ap (λ n. was_launched n (done ++ acts)) gen
      ∙ ground (
        arith,
        stop,
        any-append (is_launch s.generation) done acts,
        fresh s.generation,
        i.stopped_new,
      );
  stopped = λ h. quiet (sym stop ∙ h);
  honest = status;
  held = λ g h. ground (
    arith,
    any-append (is_spawn g) done acts,
    any-append (is_over g) done acts,
    no_spawn g,
    held g,
    i.held g,
  );
  supervised = λ h.
      ap
        (λ n.
          n == 0
          || s2.restart_timer
          || (was_spawned n (done ++ acts) && not (has_ended n (done ++ acts))))
        gen
      ∙ ground (
        arith,
        stop,
        any-append (is_spawn s.generation) done acts,
        any-append (is_end s.generation) done acts,
        no_spawn s.generation,
        ends,
        timer,
        i.supervised,
      );
}

-- A step that begins the next launch, or stops.
pub new_launch :
    (s s2 : Supervisor) (done acts : List Action)
    → Invariant s done
    → s2.generation ≡ s.generation + 1
    → ((g : ℕ) → was_launched g acts ≡ true → (g ≡ s.generation + 1) × (s2.stopping ≡ false))
    → ((g : ℕ) → was_spawned g acts ≡ true → is_held g s2.child ≡ true)
    → ((g : ℕ) → has_ended g acts ≡ false)
    → ((g : ℕ) → is_held g s.child ≡ true → is_finished g acts ≡ true)
    → (s2.stopping ≡ true → (s2.child ≡ none) × (s2.restart_timer ≡ false) × (s2.status ≡ offline))
    → (s2.status ≡ offline) ⊎ ((hello : EngineHello) × (s2.status ≡ online hello))
    → (s2.stopping ≡ false → (s2.restart_timer || was_spawned (s.generation + 1) acts) ≡ true)
    → Invariant s2 (done ++ acts)
new_launch s s2 done acts i gen fresh spawned no_end over quiet status watched = record {
  launched = λ g h. ground (arith, gen, any-append (is_launch g) done acts, fresh g, i.launched g);
  known = λ g h. ground (
    arith,
    any-append (is_launch g) done acts,
    any-append (is_end g) done acts,
    no_end g,
    i.known g,
  );
  stopped_new = λ h.
      ap (λ n. was_launched n (done ++ acts)) gen
      ∙ ground (
        arith,
        any-append (is_launch (s.generation + 1)) done acts,
        fresh (s.generation + 1),
        i.launched (s.generation + 1),
      );
  stopped = quiet;
  honest = status;
  held = λ g h. ground (
    arith,
    any-append (is_spawn g) done acts,
    any-append (is_over g) done acts,
    spawned g,
    over g,
    i.held g,
  );
  supervised = λ h.
      ap
        (λ n.
          n == 0
          || s2.restart_timer
          || (was_spawned n (done ++ acts) && not (has_ended n (done ++ acts))))
        gen
      ∙ ground (
        arith,
        any-append (is_spawn (s.generation + 1)) done acts,
        any-append (is_end (s.generation + 1)) done acts,
        no_end (s.generation + 1),
        i.known (s.generation + 1),
        i.launched (s.generation + 1),
        watched,
      );
}
