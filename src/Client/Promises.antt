-- ===== src/Client/Promises.antt =====
-- electron/main/engineClient.ts: the promises that a step makes and settles.
use vanilla_bus.Prelude.{
  ◌+◌, ◌≤◌, ◌≡◌, refl, sym, ap, ◌∙◌, Bool, true, false, List, [], ◌∷◌, ◌++◌, Text, arith, length,
  append-nil, append_assoc, if◌then◌else◌,
}
use vanilla_bus.Prelude.Assoc.{remove, keys, has, length-remove_le}
use vanilla_bus.Prelude.Count.{count, count-append, count-remove}
use vanilla_bus.Client.State.{
  RequestError, SocketState, absent, live, destroyed, EngineClient, Effect, promised, resolves,
  rejects, disconnects, connection_closed, reject_all, destroy_socket, close, on_close,
}

-- the promise that an effect makes, and the one that it settles
abbrev pub made : Effect → List Text
made (promised id) = id ∷ []
made _ = []

abbrev pub ended : Effect → List Text
ended (resolves id payload) = id ∷ []
ended (rejects id error) = id ∷ []
ended _ = []

abbrev pub ids : (Effect → List Text) → List Effect → List Text
ids f [] = []
ids f (effect ∷ effects) = f effect ++ ids f effects

abbrev pub promised_ids : List Effect → List Text
promised_ids = ids made

abbrev pub settled_ids : List Effect → List Text
settled_ids = ids ended

pub ids-append :
    (f : Effect → List Text) (xs ys : List Effect) → ids f (xs ++ ys) ≡ ids f xs ++ ids f ys
ids-append f [] ys = refl
ids-append f (x ∷ xs) ys =
    ap (λ zs. f x ++ zs) (ids-append f xs ys) ∙ sym (append_assoc (f x) (ids f xs) (ids f ys))

-- no request is pending on a closed client
abbrev pub IsQuiet : EngineClient → Type 0
IsQuiet c = c.closed ≡ true → c.pending ≡ []

-- A step that makes no promise: what leaves `pending` is settled, once for each time it was there.
pub record Settles (c : EngineClient) (r : EngineClient × List Effect) : Type 0 where
  pub none_new : promised_ids r.1 ≡ []
  pub balance :
      (id : Text)
      → count id (settled_ids r.1) + count id (keys r.0.pending) ≡ count id (keys c.pending)
  pub same_seq : r.0.request_seq ≡ c.request_seq
  pub fewer : length r.0.pending ≤ length c.pending
  pub quiet : IsQuiet c → IsQuiet r.0

reject_all-settled :
    (error : RequestError) (pending : List (Text × Text))
    → settled_ids (reject_all error pending) ≡ keys pending
reject_all-settled error [] = refl
reject_all-settled error ((id, kind) ∷ pending) = ap (◌∷◌ id) (reject_all-settled error pending)

reject_all-promised :
    (error : RequestError) (pending : List (Text × Text))
    → promised_ids (reject_all error pending) ≡ []
reject_all-promised error [] = refl
reject_all-promised error ((id, kind) ∷ pending) = reject_all-promised error pending

abbrev pub SettlesNothing : List Effect → Type 0
SettlesNothing effects = (promised_ids effects ≡ []) × (settled_ids effects ≡ [])

pub destroy_socket-nothing : (s : SocketState) → SettlesNothing (destroy_socket s)
destroy_socket-nothing absent = (refl, refl)
destroy_socket-nothing live = (refl, refl)
destroy_socket-nothing destroyed = (refl, refl)

-- the ends of a connection: every request is rejected
pub reject_rest :
    (c next : EngineClient) (more : List Effect)
    → SettlesNothing more
    → next.pending ≡ []
    → next.request_seq ≡ c.request_seq
    → Settles c (next, reject_all connection_closed c.pending ++ more)
unfolding count
reject_rest c next more (no_new, no_settled) gone seq =
    let rejected = reject_all connection_closed c.pending in
    record {
      none_new =
          ids-append made rejected more
          ∙ ap (λ xs. xs ++ promised_ids more) (reject_all-promised connection_closed c.pending)
          ∙ no_new;
      balance = λ id.
          let all =
            ap (count id) (ids-append ended rejected more)
            ∙ count-append id (settled_ids rejected) (settled_ids more) in
          let old = ap (count id) (reject_all-settled connection_closed c.pending) in
          omega (arith, all, old, ap (count id) no_settled, ap (λ m. count id (keys m)) gone);
      same_seq = seq;
      fewer = omega (arith, ap length gone);
      quiet = λ h e. gone;
    }

pub close-Settles : (c : EngineClient) → Settles c (close c)
unfolding close
close-Settles c =
    reject_rest c _ (destroy_socket c.socket) (destroy_socket-nothing c.socket) refl refl

-- a step that settles nothing and keeps `pending`
pub keeps :
    (c next : EngineClient) (effects : List Effect)
    → SettlesNothing effects
    → next.pending ≡ c.pending
    → next.request_seq ≡ c.request_seq
    → next.closed ≡ c.closed
    → Settles c (next, effects)
unfolding count
keeps c next effects (no_new, no_settled) same_pending seq same_closed = record {
  none_new = no_new;
  balance = λ id. omega (arith, ap (count id) no_settled, ap (λ m. count id (keys m)) same_pending);
  same_seq = seq;
  fewer = omega (arith, ap length same_pending);
  quiet = λ h e. same_pending ∙ h (sym same_closed ∙ e);
}

pub if_nothing : (b : Bool) → SettlesNothing (if b then disconnects ∷ [] else [])
if_nothing true = (refl, refl)
if_nothing false = (refl, refl)

pub on_close-Settles : (c : EngineClient) → Settles c (on_close c)
unfolding on_close
on_close-Settles c = split c.closed
  where
    split :
        (b : Bool)
        → Settles c (
            if b then (c, []) else (
              record c { closed = true; pending = [] },
              reject_all connection_closed c.pending ++ (if c.opened then disconnects ∷ [] else []),
            ))
    split true = keeps c c [] (refl, refl) refl refl refl
    split false =
        reject_rest c _ (if c.opened then disconnects ∷ [] else []) (if_nothing c.opened) refl refl

nil_of-remove : (id : Text) (m : List (Text × Text)) → m ≡ [] → remove id m ≡ []
unfolding remove
nil_of-remove id m e = rw e refl

-- one request leaves `pending` and is settled
pub settle_one :
    (c : EngineClient) (id : Text) (effect : Effect)
    → made effect ≡ []
    → ended effect ≡ id ∷ []
    → has id c.pending ≡ true
    → Settles c (record c { pending = remove id c.pending }, effect ∷ [])
settle_one c id effect no_new one there = record {
  none_new = append-nil (made effect) ∙ no_new;
  balance = λ j.
      omega
        (arith, ap (count j) (append-nil (ended effect) ∙ one), count-remove j id c.pending there);
  same_seq = refl;
  fewer = length-remove_le id c.pending;
  quiet = λ h e. nil_of-remove id c.pending (h e);
}
