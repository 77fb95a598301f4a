-- ===== src/Client/Accounts.antt =====
-- electron/main/engineClient.ts: what holds of a client and of all the promises that it made.
use vanilla_bus.Prelude.{
  ℕ, ◌+◌, ◌≤◌, ◌<◌, ◌≡◌, refl, sym, ap, ◌∙◌, false, List, [], ◌∷◌, ◌++◌, Text, arith, length,
  Bool-cases, inl, inr, All, All-append, append-nil, length-append,
}
use vanilla_bus.Prelude.Strings.{same, same_iff, contains}
use vanilla_bus.Prelude.Assoc.{keys, insert, insert_fresh, has, keys-append}
use vanilla_bus.Prelude.Count.{
  count, count-append, count_absent, count_zero, count_one, contains_none,
}
use vanilla_bus.Client.State.{EngineClient, Effect, promised, fresh_client, max_pending_requests}
use vanilla_bus.Client.Requests.{request_id}
use vanilla_bus.Client.Ids.{request_id-injective}
use vanilla_bus.Client.Promises.{
  made, ended, ids-append, promised_ids, settled_ids, IsQuiet, Settles,
}

-- the id of one of the first `n` requests
abbrev pub IsOld : ℕ → Text → Type 0
IsOld n id = (k : ℕ) × (now : ℕ) × (k ≤ n) × (id ≡ request_id k now)

-- What holds of a client and all that it did.
pub record Accounts (r : EngineClient × List Effect) : Type 0 where
  pub settled :
      (id : Text)
      → count id (promised_ids r.1) ≡ count id (settled_ids r.1) + count id (keys r.0.pending)
  pub once : (id : Text) → count id (promised_ids r.1) ≤ 1
  pub old : All (IsOld r.0.request_seq) (promised_ids r.1)
  pub few : length r.0.pending ≤ max_pending_requests
  pub quiet : IsQuiet r.0

pub fresh_client-Accounts : Accounts (fresh_client, [])
unfolding count
fresh_client-Accounts = record {
  settled = λ id. refl;
  once = λ id. omega arith;
  old = tt;
  few = omega arith;
  quiet = λ e. refl;
}

-- a step that makes no promise
pub settle_more :
    (c : EngineClient) (done : List Effect) (r : EngineClient × List Effect)
    → Accounts (c, done)
    → Settles c r
    → Accounts (r.0, done ++ r.1)
unfolding count
settle_more c done (next, effects) a s =
    let same_promises : promised_ids (done ++ effects) ≡ promised_ids done =
      ids-append made done effects
      ∙ ap (λ xs. promised_ids done ++ xs) s.none_new
      ∙ append-nil (promised_ids done) in
    record {
      settled = λ id.
          let all =
            ap (count id) (ids-append ended done effects)
            ∙ count-append id (settled_ids done) (settled_ids effects) in
          omega (arith, ap (count id) same_promises, all, a.settled id, s.balance id);
      once = λ id. omega (arith, ap (count id) same_promises, a.once id);
      old = rw (same_promises, s.same_seq) a.old;
      few = omega (arith, a.few, s.fewer);
      quiet = s.quiet a.quiet;
    }

IsOld-suc : (n : ℕ) (id : Text) → IsOld n id → IsOld (n + 1) id
IsOld-suc n id (k, now, h, e) = (k, now, omega arith, e)

All-IsOld-suc : (n : ℕ) (xs : List Text) → All (IsOld n) xs → All (IsOld (n + 1)) xs
All-IsOld-suc n [] h = tt
All-IsOld-suc n (x ∷ xs) (h, hs) = (IsOld-suc n x h, All-IsOld-suc n xs hs)

-- the number of a request is new
new_id-absent :
    (c : EngineClient) (done : List Effect) (now : ℕ)
    → Accounts (c, done)
    → contains (request_id (c.request_seq + 1) now) (promised_ids done) ≡ false
new_id-absent c done now a =
    contains_none (IsOld c.request_seq) _ (promised_ids done) a.old
      (λ (k, then_, h, e). omega (arith, h, request_id-injective (c.request_seq + 1) now k then_ e))

-- the promise is made and its entry is there
abbrev pub begin : EngineClient → ℕ → Text → EngineClient
begin c now kind = record c {
  request_seq = c.request_seq + 1;
  pending = insert (request_id (c.request_seq + 1) now) kind c.pending;
}

new_id-unpending :
    (c : EngineClient) (done : List Effect) (now : ℕ)
    → Accounts (c, done)
    → has (request_id (c.request_seq + 1) now) c.pending ≡ false
new_id-unpending c done now a =
    let id = request_id (c.request_seq + 1) now in
    let none_made = count_absent id (promised_ids done) (new_id-absent c done now a) in
    count_zero id (keys c.pending) (omega (arith, none_made, a.settled id))

begin-pending :
    (c : EngineClient) (done : List Effect) (now : ℕ) (kind : Text)
    → Accounts (c, done)
    → (begin c now kind).pending ≡ c.pending ++ (request_id (c.request_seq + 1) now, kind) ∷ []
begin-pending c done now kind a = insert_fresh _ kind c.pending (new_id-unpending c done now a)

one_more :
    (id j : Text) (before after_ : List Text)
    → count id before ≡ 0
    → count j before ≤ 1
    → count j after_ ≡ count j before + count j (id ∷ [])
    → count j after_ ≤ 1
one_more id j before after_ none_yet few more = elim (Bool-cases (same id j)) [
  | inl e ↦
      let zero_yet = ap (λ k. count k before) (sym ((same_iff id j).0 e)) ∙ none_yet in
      ground (arith, zero_yet, count_one j id)
  | inr e ↦ ground (arith, count_one j id)
]

pub begin-Accounts :
    (c : EngineClient) (done : List Effect) (now : ℕ) (kind : Text)
    → Accounts (c, done)
    → length c.pending < max_pending_requests
    → c.closed ≡ false
    → Accounts (begin c now kind, done ++ promised (request_id (c.request_seq + 1) now) ∷ [])
begin-Accounts c done now kind a room up =
    let id = request_id (c.request_seq + 1) now in
    let put = begin-pending c done now kind a in
    let absent_id = count_absent id (promised_ids done) (new_id-absent c done now a) in
    let more : promised_ids (done ++ promised id ∷ []) ≡ promised_ids done ++ id ∷ [] =
      ids-append made done (promised id ∷ []) in
    let less : settled_ids (done ++ promised id ∷ []) ≡ settled_ids done =
      ids-append ended done (promised id ∷ []) ∙ append-nil (settled_ids done) in
    record {
      settled = λ j.
          let made_now = ap (count j) more ∙ count-append j (promised_ids done) (id ∷ []) in
          let waiting =
            ap (λ m. count j (keys m)) put
            ∙ ap (count j) (keys-append c.pending ((id, kind) ∷ []))
            ∙ count-append j (keys c.pending) (id ∷ []) in
          omega (arith, made_now, waiting, ap (count j) less, a.settled j);
      once = λ j.
          let made_now = ap (count j) more ∙ count-append j (promised_ids done) (id ∷ []) in
          one_more id j (promised_ids done) (promised_ids (done ++ promised id ∷ [])) absent_id
            (a.once j) made_now;
      old = rw more (
          All-append (IsOld (c.request_seq + 1)) (promised_ids done) (id ∷ [])
            (All-IsOld-suc c.request_seq (promised_ids done) a.old)
            ((c.request_seq + 1, now, omega arith, refl), tt));
      few = omega (arith, room, ap length put ∙ length-append c.pending ((id, kind) ∷ []));
      quiet = λ e. absurd (ground arith);
    }
