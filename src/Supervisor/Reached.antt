-- ===== src/Supervisor/Reached.antt =====
-- electron/main/engineSupervisor.ts: every step keeps the invariant.
use vanilla_bus.Prelude.{
  ℕ, ◌≡◌, ◌⊎◌, inl, inr, refl, sym, ap, ◌∙◌, true, false, ◌||◌, List, [], ◌∷◌, ◌++◌, none, some,
  arith, ltb, Bool-cases, append-nil,
}
use vanilla_bus.Engine.Value.{Number}
use vanilla_bus.Engine.Types.{RxBatch}
use vanilla_bus.Client.State.{EngineHello}
use vanilla_bus.Supervisor.State.{
  Supervisor, Action, EngineStatus, connects, sleeps, closes, notifies, logs_beat, passes, offline,
  online, terminate, connect_attempts,
}
use vanilla_bus.Supervisor.Launch.{is_stale, attempt_from, stop, attached}
use vanilla_bus.Supervisor.{
  was_launched, on_hello, on_heartbeat, on_disconnect, on_rx_batch, is_logged,
}
use vanilla_bus.Supervisor.Invariant.{
  Invariant, same_launch, IsMute, terminate-IsMute, terminate-held, is_held, is_finished,
}

pub nothing : (s : Supervisor) (done : List Action) → Invariant s done → Invariant s (done ++ [])
nothing s done i = rw (append-nil done) i

-- what changes neither the child nor the timer
calm :
    (s s2 : Supervisor) (done acts : List Action)
    → Invariant s done
    → s2.generation ≡ s.generation
    → s2.stopping ≡ s.stopping
    → s2.child ≡ s.child
    → s2.restart_timer ≡ s.restart_timer
    → s2.status ≡ s.status
    → IsMute acts
    → Invariant s2 (done ++ acts)
calm s s2 done acts i gen stop same_child timer same_status m =
    same_launch s s2 done acts i gen stop (λ g h. ground (arith, m.no_launch g)) m.no_spawn
      (λ g h. ground (arith, m.no_end g)) (λ h. ground (arith, m.no_end s.generation))
      (λ h. timer ∙ h) (λ g h. ground (arith, h, ap (is_held g) same_child))
      (λ h.
        let (c, t, offline_) = i.stopped h in (same_child ∙ c, timer ∙ t, same_status ∙ offline_))
      (elim i.honest [
        | inl e ↦ inl (same_status ∙ e)
        | inr (hello, e) ↦ inr (hello, same_status ∙ e)
      ])

-- a launch that is the present one is not stopped
pub present :
    (s : Supervisor) (done : List Action) (g : ℕ)
    → Invariant s done
    → was_launched g done ≡ true
    → is_stale g s ≡ false
    → (g ≡ s.generation) × (s.stopping ≡ false)
present s done g i known e =
    let same : g ≡ s.generation = ground (arith, e) in
    let made = ap (λ n. was_launched n done) (sym same) ∙ known in
    (same, ground (arith, i.stopped_new, made))

pub attached-Invariant :
    (s : Supervisor) (done : List Action) (g : ℕ)
    → Invariant s done
    → Invariant (attached g s).0 (done ++ (attached g s).1)
unfolding attached
attached-Invariant s done g i =
    calm s _ done _ i refl refl refl refl refl
      (record { no_launch = λ h. refl; no_spawn = λ h. refl; no_end = λ h. refl })

pub attach_failed-Invariant :
    (s : Supervisor) (done : List Action) (g attempt : ℕ)
    → Invariant s done
    → Invariant s (done ++ closes g ∷ sleeps g attempt ∷ [])
attach_failed-Invariant s done g attempt i =
    calm s s done _ i refl refl refl refl refl
      (record { no_launch = λ h. refl; no_spawn = λ h. refl; no_end = λ h. refl })

pub on_hello-Invariant :
    (s : Supervisor) (done : List Action) (g : ℕ) (hello : EngineHello)
    → Invariant s done
    → was_launched g done ≡ true
    → Invariant (on_hello g hello s).0 (done ++ (on_hello g hello s).1)
unfolding on_hello
on_hello-Invariant s done g hello i known = elim (Bool-cases (is_stale g s)) [
  | inl e ↦ rw (e, on_hello) (nothing s done i)
  | inr e ↦
      let (same, live) = present s done g i known e in
      rw (e, on_hello)
        (same_launch s (record s { status = online hello }) done (notifies (online hello) ∷ []) i
          refl refl (λ h k. cc) (λ h. refl) (λ h k. cc) (λ k. cc) (λ k. k)
          (λ h k. ground (arith, k)) (λ k. absurd (ground (arith, live, k))) (inr (hello, refl)))
]

pub on_heartbeat-Invariant :
    (s : Supervisor) (done : List Action) (g : ℕ) (ts_us : Number)
    → Invariant s done
    → Invariant (on_heartbeat g ts_us s).0 (done ++ (on_heartbeat g ts_us s).1)
unfolding on_heartbeat
on_heartbeat-Invariant s done g ts_us i = elim (Bool-cases (is_stale g s)) [
  | inl e ↦ rw (e, on_heartbeat) (nothing s done i)
  | inr e ↦ elim (Bool-cases (is_logged g s.heartbeat_log_generation)) [
    | inl old ↦ rw (e, old, on_heartbeat) (nothing s done i)
    | inr new ↦
        rw (e, new, on_heartbeat)
          (calm s (record s { heartbeat_log_generation = some g }) done (logs_beat ts_us ∷ []) i
            refl refl refl refl refl
            (record { no_launch = λ h. refl; no_spawn = λ h. refl; no_end = λ h. refl }))
  ]
]

pub on_rx_batch-Invariant :
    (s : Supervisor) (done : List Action) (g : ℕ) (batch : RxBatch)
    → Invariant s done
    → Invariant (on_rx_batch g batch s).0 (done ++ (on_rx_batch g batch s).1)
unfolding on_rx_batch
on_rx_batch-Invariant s done g batch i = elim (Bool-cases (is_stale g s)) [
  | inl e ↦ rw (e, on_rx_batch) (nothing s done i)
  | inr e ↦
      rw (e, on_rx_batch)
        (calm s s done (passes batch ∷ []) i refl refl refl refl refl
          (record { no_launch = λ h. refl; no_spawn = λ h. refl; no_end = λ h. refl }))
]

-- the child is let go of, within a launch
drop_child :
    (s : Supervisor) (done acts : List Action) (status : EngineStatus)
    → Invariant s done
    → IsMute acts
    → ((g : ℕ) → is_held g s.child ≡ true → is_finished g acts ≡ true)
    → (status ≡ offline) ⊎ ((status ≡ s.status))
    → Invariant (record s { child = none; status = status }) (done ++ acts)
drop_child s done acts status i m over which =
    same_launch s (record s { child = none; status = status }) done acts i refl refl
      (λ g h. ground (arith, m.no_launch g)) m.no_spawn (λ g h. ground (arith, m.no_end g))
      (λ h. ground (arith, m.no_end s.generation)) (λ h. h) over
      (λ h.
        let (c, t, quiet) = i.stopped h in (refl, t, elim which [ inl e ↦ e | inr e ↦ e ∙ quiet ]))
      (elim which [
        | inl e ↦ inl e
        | inr same ↦ elim i.honest [
          | inl e ↦ inl (same ∙ e)
          | inr (hello, e) ↦ inr (hello, same ∙ e)
        ]
      ])

pub on_disconnect-Invariant :
    (s : Supervisor) (done : List Action) (g : ℕ)
    → Invariant s done
    → Invariant (on_disconnect g s).0 (done ++ (on_disconnect g s).1)
unfolding on_disconnect
on_disconnect-Invariant s done g i = elim (Bool-cases (is_stale g s || s.stopping)) [
  | inl e ↦ rw (e, on_disconnect) (nothing s done i)
  | inr e ↦
      let m = terminate-IsMute s.child in
      rw (e, on_disconnect)
        (drop_child s done (notifies offline ∷ terminate s.child) offline i
          (record { no_launch = m.no_launch; no_spawn = m.no_spawn; no_end = m.no_end })
          (terminate-held s.child) (inl refl))
]

pub attempt_from-Invariant :
    (s : Supervisor) (done : List Action) (g attempt : ℕ)
    → Invariant s done
    → Invariant (attempt_from g attempt s).0 (done ++ (attempt_from g attempt s).1)
unfolding attempt_from
attempt_from-Invariant s done g attempt i = elim (Bool-cases (ltb attempt connect_attempts)) [
  | inl more ↦ elim (Bool-cases (s.stopping || is_stale g s)) [
    | inl e ↦ rw (more, e, attempt_from) (nothing s done i)
    | inr e ↦
        rw (more, e, attempt_from)
          (same_launch s s done (connects g attempt ∷ []) i refl refl (λ h k. ground (arith, e, k))
            (λ h. refl) (λ h k. cc) (λ k. cc) (λ k. k) (λ h k. ground (arith, k)) i.stopped
            i.honest)
  ]
  | inr over ↦ elim (Bool-cases (is_stale g s || s.stopping)) [
    | inl e ↦ rw (over, e, attempt_from) (nothing s done i)
    | inr e ↦
        rw (over, e, attempt_from)
          (drop_child s done (terminate s.child) s.status i (terminate-IsMute s.child)
            (terminate-held s.child) (inr refl))
  ]
]
