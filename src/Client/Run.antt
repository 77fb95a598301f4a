-- ===== src/Client/Run.antt =====
-- electron/main/engineClient.ts: the promises of a client over its life.
use vanilla_bus.Prelude.{
  ℕ, ◌+◌, ◌<◌, ◌≡◌, refl, sym, ap, ◌∙◌, true, false, not, ◌||◌, List, [], ◌∷◌, ◌++◌, Option, none,
  some, Text, arith, length, append_assoc, Bool-cases, Option-cases, inl, inr, leb,
}
use vanilla_bus.Prelude.Strings.{same_refl}
use vanilla_bus.Prelude.Assoc.{has-insert, has}
use vanilla_bus.Engine.Value.{Value, Fields}
use vanilla_bus.Framing.{JsonCodec, encode_message}
use vanilla_bus.Client.State.{
  EngineClient, Effect, SocketState, absent, live, destroyed, wrote, promised, fresh_client,
  connect, on_ready, max_pending_requests,
}
use vanilla_bus.Client.Requests.{
  request_id, message_of, is_live, send, sent, start_request, request, send_hello,
}
use vanilla_bus.Client.Promises.{
  Settles, SettlesNothing, keeps, settle_one, close-Settles, on_close-Settles,
}
use vanilla_bus.Client.Settle.{on_timeout-Settles, on_data-Settles}
use mathlib.Core.Option.{some-injective}
use vanilla_bus.Client.{
  ClientEvent, connects, ready, connect_fails, socket_dies, socket_closes, closes, hellos,
  data_arrives, timer_fires, requests, or_none, step, run,
}
use vanilla_bus.Client.Accounts.{
  Accounts, fresh_client-Accounts, settle_more, begin, begin-Accounts,
}

-- what comes right after a promise
later :
    (c : EngineClient) (id : Text) (done : List Effect) (r : EngineClient × List Effect)
    → Accounts (c, done ++ promised id ∷ [])
    → Settles c r
    → Accounts (r.0, done ++ promised id ∷ r.1)
later c id done (next, effects) a s =
    rw (sym (append_assoc done (promised id ∷ []) effects))
      (settle_more c (done ++ promised id ∷ []) (next, effects) a s)

module _ (codec : JsonCodec) where
  -- the entry is there, and `send` settles nothing
  sent-Accounts :
      (c : EngineClient) (id : Text) (done : List Effect) (r : Option (List Effect))
      → ((effects : List Effect) → r ≡ some effects → SettlesNothing effects)
      → has id c.pending ≡ true
      → Accounts (c, done ++ promised id ∷ [])
      → Accounts ((sent codec c id r).0, done ++ (sent codec c id r).1)
  sent-Accounts c id done (some effects) quiet there a =
      later c id done (c, effects) a (keeps c c effects (quiet effects refl) refl refl refl)
  sent-Accounts c id done none quiet there a =
      later c id done _ a (settle_one c id _ refl refl there)

wrote-nothing :
    (r : Option (List ℕ)) (effects : List Effect)
    → (elim r [ some bytes ↦ some (wrote bytes ∷ []) | none ↦ none ]) ≡ some effects
    → SettlesNothing effects
wrote-nothing none effects e = absurd (ground arith)
wrote-nothing (some bytes) effects e =
    rw (← some-injective (wrote bytes ∷ []) effects e) (refl, refl)

nothing-nothing : (effects : List Effect) → some [] ≡ some effects → SettlesNothing effects
nothing-nothing effects e = rw (← some-injective [] effects e) (refl, refl)

module _ (codec : JsonCodec) where
  send-nothing :
      (c : EngineClient) (message : Value) (effects : List Effect)
      → send codec c message ≡ some effects
      → SettlesNothing effects
  unfolding send
  send-nothing c message effects e = split c.socket e
    where
      split :
          (s : SocketState)
          → (elim s [
            | live ↦ elim (encode_message codec message) [
              | some bytes ↦ some (wrote bytes ∷ [])
              | none ↦ none
            ]
            | absent ↦ some []
            | destroyed ↦ some []
          ])
            ≡ some effects
          → SettlesNothing effects
      split absent h = nothing-nothing effects h
      split destroyed h = nothing-nothing effects h
      split live h = wrote-nothing (encode_message codec message) effects h

  begin-has :
      (c : EngineClient) (now : ℕ) (kind : Text)
      → has (request_id (c.request_seq + 1) now) (begin c now kind).pending ≡ true
  begin-has c now kind =
      let id = request_id (c.request_seq + 1) now in
      has-insert id id kind c.pending ∙ ap (λ b. b || has id c.pending) (same_refl id)

  start_request-Accounts :
      (c : EngineClient) (done : List Effect) (now : ℕ) (kind : Text) (payload : Fields)
      → Accounts (c, done)
      → length c.pending < max_pending_requests
      → c.closed ≡ false
      → Accounts (
        (start_request codec c now kind payload).0,
        done ++ (start_request codec c now kind payload).1,
      )
  unfolding start_request
  start_request-Accounts c done now kind payload a room up =
      let id = request_id (c.request_seq + 1) now in
      let next = begin c now kind in
      sent-Accounts codec next id done _ (send-nothing next (message_of kind id payload))
        (begin-has c now kind) (begin-Accounts c done now kind a room up)

  request-Accounts :
      (c : EngineClient) (done : List Effect) (now : ℕ) (kind : Text) (payload : Fields)
      → Accounts (c, done)
      → Accounts
          ((request codec c now kind payload).0, done ++ (request codec c now kind payload).1)
  unfolding request
  request-Accounts c done now kind payload a =
      elim (Bool-cases (not (is_live c.socket) || c.closed)) [
        | inl e ↦
            rw (e, request) (settle_more c done (c, _) a (keeps c c _ (refl, refl) refl refl refl))
        | inr e ↦ elim (Bool-cases (leb max_pending_requests (length c.pending))) [
          | inl full ↦
              rw (e, full, request)
                (settle_more c done (c, _) a (keeps c c _ (refl, refl) refl refl refl))
          | inr room ↦
              rw (e, room, request)
                (start_request-Accounts c done now kind payload a (ground arith) (ground arith))
        ]
      ]

  hellos-nothing : (c : EngineClient) → SettlesNothing (or_none (send_hello codec c))
  hellos-nothing c = elim (Option-cases (send_hello codec c)) [
    | inl e ↦ rw e (refl, refl)
    | inr (effects, e) ↦ rw e (send-nothing c _ effects e)
  ]

  step-Accounts :
      (c : EngineClient) (done : List Effect) (event : ClientEvent)
      → Accounts (c, done)
      → Accounts ((step codec c event).0, done ++ (step codec c event).1)
  unfolding step connect on_ready
  step-Accounts c done connects a =
      settle_more c done _ a (keeps c _ [] (refl, refl) refl refl refl)
  step-Accounts c done ready a = settle_more c done _ a (keeps c _ _ (refl, refl) refl refl refl)
  step-Accounts c done connect_fails a =
      settle_more c done _ a (keeps c c _ (refl, refl) refl refl refl)
  step-Accounts c done socket_dies a =
      settle_more c done _ a (keeps c _ [] (refl, refl) refl refl refl)
  step-Accounts c done socket_closes a = settle_more c done _ a (on_close-Settles c)
  step-Accounts c done closes a = settle_more c done _ a (close-Settles c)
  step-Accounts c done hellos a =
      settle_more c done _ a (keeps c c _ (hellos-nothing c) refl refl refl)
  step-Accounts c done (data_arrives chunk) a =
      settle_more c done _ a (on_data-Settles codec c chunk)
  step-Accounts c done (timer_fires id) a = settle_more c done _ a (on_timeout-Settles c id)
  step-Accounts c done (requests now kind payload) a = request-Accounts c done now kind payload a

  pub run-Accounts_from :
      (c : EngineClient) (done : List Effect) (events : List ClientEvent)
      → Accounts (c, done)
      → Accounts (run codec (c, done) events)
  unfolding run
  run-Accounts_from c done [] a = a
  run-Accounts_from c done (event ∷ events) a =
      run-Accounts_from (step codec c event).0 (done ++ (step codec c event).1) events
        (step-Accounts c done event a)

  -- Whatever happens to a client in whatever order: the promises of `request` have different ids,
  -- each is settled at most once, and is settled exactly when its request is not pending any more;
  -- at most 128 requests are pending, and none on a closed client.
  pub run-Accounts : (events : List ClientEvent) → Accounts (run codec (fresh_client, []) events)
  run-Accounts events = run-Accounts_from fresh_client [] events fresh_client-Accounts
