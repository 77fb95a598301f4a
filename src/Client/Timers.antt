-- ===== src/Client/Timers.antt =====
-- electron/main/engineClient.ts: the timers of `request` settle what no answer settles.
use vanilla_bus.Prelude.{◌≡◌, refl, ap, ◌∙◌, List, [], ◌∷◌, map, some, Text, arith}
use vanilla_bus.Prelude.Strings.{same_refl}
use vanilla_bus.Prelude.Assoc.{lookup, remove, keys}
use vanilla_bus.Prelude.Count.{count}
use vanilla_bus.Framing.{JsonCodec}
use vanilla_bus.Client.State.{EngineClient, Effect, fresh_client}
use vanilla_bus.Client.Requests.{on_timeout}
use vanilla_bus.Client.{ClientEvent, timer_fires, step, run}
use vanilla_bus.Client.Promises.{promised_ids, settled_ids}
use vanilla_bus.Client.Run.{run-Accounts_from, run-Accounts}

-- the timers that run: one for each entry
abbrev pub timers : EngineClient → List ClientEvent
timers c = map timer_fires (keys c.pending)

lookup_first :
    (id kind : Text) (rest : List (Text × Text)) → lookup id ((id, kind) ∷ rest) ≡ some kind
unfolding lookup
lookup_first id kind rest = rw (same_refl id, lookup) refl

remove_first : (id kind : Text) (rest : List (Text × Text)) → remove id ((id, kind) ∷ rest) ≡ rest
unfolding remove
remove_first id kind rest = rw (same_refl id, remove) refl

on_timeout-first :
    (c : EngineClient) (id kind : Text) (rest : List (Text × Text))
    → c.pending ≡ (id, kind) ∷ rest
    → (on_timeout c id).0.pending ≡ rest
unfolding on_timeout
on_timeout-first c id kind rest h =
    let found = ap (lookup id) h ∙ lookup_first id kind rest in
    rw (found, on_timeout) (ap (remove id) h ∙ remove_first id kind rest)

module _ (codec : JsonCodec) where
  run-timers :
      (pending : List (Text × Text)) (c : EngineClient) (done : List Effect)
      → c.pending ≡ pending
      → (run codec (c, done) (map timer_fires (keys pending))).0.pending ≡ []
  unfolding run step
  run-timers [] c done h = h
  run-timers ((id, kind) ∷ rest) c done h =
      run-timers rest (on_timeout c id).0 _ (on_timeout-first c id kind rest h)

  -- From any state that a client reaches: once the timers of its pending requests have fired,
  -- nothing is pending and every promise of `request` is settled, exactly as often as it was made.
  pub timers-settle_all :
      (events : List ClientEvent)
      → (let reached = run codec (fresh_client, []) events in
          let later = run codec reached (timers reached.0) in
          (later.0.pending ≡ [])
          × ((id : Text) → count id (promised_ids later.1) ≡ count id (settled_ids later.1)))
  unfolding count
  timers-settle_all events =
      let reached = run codec (fresh_client, []) events in
      let later = run codec reached (timers reached.0) in
      let gone = run-timers reached.0.pending reached.0 reached.1 refl in
      let a =
        run-Accounts_from codec reached.0 reached.1 (timers reached.0)
          (run-Accounts codec events) in
      (gone, λ id. omega (arith, a.settled id, ap (λ m. count id (keys m)) gone))
