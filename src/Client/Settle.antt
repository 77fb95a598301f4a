-- ===== src/Client/Settle.antt =====
-- electron/main/engineClient.ts: what a step does to the promises that are pending.
use vanilla_bus.Prelude.{
  ℕ, ◌≡◌, refl, ap, ◌∙◌, Bool, true, false, List, [], ◌∷◌, ◌++◌, Option, none, some, Text, codes,
  arith, Option-cases, inl, inr, if◌then◌else◌,
}
use vanilla_bus.Prelude.Strings.{same}
use vanilla_bus.Prelude.Assoc.{lookup, lookup-has}
use vanilla_bus.Prelude.Count.{count, count-append}
use vanilla_bus.Engine.Value.{
  Value, undefined, null, boolean, number, string, array, object, Fields, get,
}
use vanilla_bus.Engine.Types.{RxBatch}
use vanilla_bus.Engine.Parse.{parse_rx_batch}
use vanilla_bus.Framing.{JsonCodec, push, Pushed, messages, throws}
use vanilla_bus.Client.State.{EngineClient, EngineHello, Effect}
use vanilla_bus.Client.Dispatch.{
  hello_effects, beat_effects, batch_effects, as_hello, or_empty, payload_value, answer, announce,
  after, dispatch_parts, dispatch, dispatch_all,
}
use vanilla_bus.Client.Requests.{on_timeout, handle_push, on_data}
use vanilla_bus.Client.Promises.{
  made, ended, Settles, SettlesNothing, keeps, settle_one, ids-append, promised_ids, settled_ids,
  close-Settles,
}

answer-one :
    (id expected kind : Text) (payload : Option Fields)
    → (made (answer id expected kind payload) ≡ [])
      × (ended (answer id expected kind payload) ≡ id ∷ [])
unfolding answer
answer-one id expected kind payload = ground arith

either_nothing :
    (b : Bool) (xs ys : List Effect)
    → SettlesNothing xs
    → SettlesNothing ys
    → SettlesNothing (if b then xs else ys)
either_nothing true xs ys h k = h
either_nothing false xs ys h k = k

hello-nothing : (hello : Option EngineHello) → SettlesNothing (hello_effects hello)
hello-nothing none = (refl, refl)
hello-nothing (some hello) = (refl, refl)

batch-nothing : (batch : Option RxBatch) → SettlesNothing (batch_effects batch)
batch-nothing none = (refl, refl)
batch-nothing (some batch) = (refl, refl)

beat-nothing : (v : Value) → SettlesNothing (beat_effects v)
beat-nothing (number n) = (refl, refl)
beat-nothing undefined = (refl, refl)
beat-nothing null = (refl, refl)
beat-nothing (boolean b) = (refl, refl)
beat-nothing (string s) = (refl, refl)
beat-nothing (array vs) = (refl, refl)
beat-nothing (object fs) = (refl, refl)

announce-nothing : (kind : Text) (payload : Option Fields) → SettlesNothing (announce kind payload)
unfolding announce
announce-nothing kind payload =
    let hello = hello_effects (as_hello payload) in
    let beat = beat_effects (get (codes "ts_us") (or_empty payload)) in
    let batch = batch_effects (parse_rx_batch (payload_value payload)) in
    let is_batch = same kind (codes "rx.batch") in
    let is_beat = same kind (codes "engine.heartbeat") in
    let others = if is_batch then batch else [] in
    either_nothing (same kind (codes "engine.hello")) hello (if is_beat then beat else others)
      (hello-nothing (as_hello payload))
      (either_nothing is_beat beat others (beat-nothing (get (codes "ts_us") (or_empty payload))) (
        either_nothing is_batch batch [] (batch-nothing (parse_rx_batch (payload_value payload)))
          (refl, refl)))

dispatch_parts-Settles :
    (c : EngineClient) (kind id : Text) (payload : Option Fields)
    → Settles c (dispatch_parts c kind id payload)
unfolding dispatch_parts
dispatch_parts-Settles c kind [] payload =
    keeps c c _ (announce-nothing kind payload) refl refl refl
dispatch_parts-Settles c kind (ch ∷ s) payload = elim (Option-cases (lookup (ch ∷ s) c.pending)) [
  | inl e ↦ rw (e, dispatch_parts) (keeps c c _ (announce-nothing kind payload) refl refl refl)
  | inr (expected, e) ↦
      let (no_new, one) = answer-one (ch ∷ s) expected kind payload in
      rw (e, dispatch_parts)
        (settle_one c (ch ∷ s) (answer (ch ∷ s) expected kind payload) no_new one
          (lookup-has (ch ∷ s) c.pending expected e))
]

pub dispatch-Settles : (c : EngineClient) (m : Fields) → Settles c (dispatch c m)
unfolding dispatch
dispatch-Settles c m = dispatch_parts-Settles c _ _ _

-- steps one after another
after-Settles :
    (c next : EngineClient) (done : List Effect) (r : EngineClient × List Effect)
    → Settles c (next, done)
    → Settles next r
    → Settles c (after done r)
after-Settles c next done (last, effects) h k = record {
  none_new =
      ids-append made done effects ∙ ap (λ xs. xs ++ promised_ids effects) h.none_new ∙ k.none_new;
  balance = λ id.
      let all =
        ap (count id) (ids-append ended done effects)
        ∙ count-append id (settled_ids done) (settled_ids effects) in
      omega (arith, all, h.balance id, k.balance id);
  same_seq = k.same_seq ∙ h.same_seq;
  fewer = omega (arith, h.fewer, k.fewer);
  quiet = λ q. k.quiet (h.quiet q);
}

pub dispatch_all-Settles : (c : EngineClient) (ms : List Fields) → Settles c (dispatch_all c ms)
unfolding dispatch_all
dispatch_all-Settles c [] = keeps c c [] (refl, refl) refl refl refl
dispatch_all-Settles c (m ∷ ms) =
    after-Settles c (dispatch c m).0 (dispatch c m).1 _ (dispatch-Settles c m)
      (dispatch_all-Settles (dispatch c m).0 ms)

pub on_timeout-Settles : (c : EngineClient) (id : Text) → Settles c (on_timeout c id)
unfolding on_timeout
on_timeout-Settles c id = elim (Option-cases (lookup id c.pending)) [
  | inl e ↦ rw (e, on_timeout) (keeps c c [] (refl, refl) refl refl refl)
  | inr (kind, e) ↦
      rw (e, on_timeout) (settle_one c id _ refl refl (lookup-has id c.pending kind e))
]

-- what only moves bytes
rebuffered :
    (c : EngineClient) (left : List ℕ) (r : EngineClient × List Effect)
    → Settles (record c { buffer = left }) r
    → Settles c r
rebuffered c left r h = record {
  none_new = h.none_new;
  balance = h.balance;
  same_seq = h.same_seq;
  fewer = h.fewer;
  quiet = h.quiet;
}

handle_push-Settles :
    (codec : JsonCodec) (c : EngineClient) (r : List ℕ × Pushed) → Settles c (handle_push codec c r)
unfolding handle_push
handle_push-Settles codec c (left, messages ms) =
    rebuffered c left _ (dispatch_all-Settles (record c { buffer = left }) ms)
handle_push-Settles codec c (left, throws e) =
    rebuffered c left _ (close-Settles (record c { buffer = left }))

pub on_data-Settles :
    (codec : JsonCodec) (c : EngineClient) (chunk : List ℕ) → Settles c (on_data codec c chunk)
unfolding on_data
on_data-Settles codec c chunk = handle_push-Settles codec c (push codec c.buffer chunk)
