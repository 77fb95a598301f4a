-- ===== src/Transmit/Jobs.antt =====
-- useTransmitModel.ts of electron/renderer/src/transmit: the rows of the Transmit view have
-- different ids.
use vanilla_bus.Prelude.{
  ℕ, ◌+◌, ◌<◌, ◌≡◌, ◌≢◌, refl, sym, ap, Bool, false, List, [], ◌∷◌, ◌++◌, Text, arith, contains,
  Bool-cases, inl, inr, drop,
}
use vanilla_bus.Trace.Decimal.{to_string-injective}
use vanilla_bus.Prelude.Strings.{same, same_iff}
use vanilla_bus.Prelude.Assoc.{IsDistinct, IsDistinct-snoc}
use vanilla_bus.Persist.Hints.{cyclic_job_definition_id}
use vanilla_bus.Persist.{PersistedCyclicJob}
use vanilla_bus.Transmit.State.{CyclicJob}
use vanilla_bus.Transmit.Model.{stop_if, reset_from, remembered_from, is_running}

abbrev pub job_ids : List CyclicJob → List Text
job_ids [] = []
job_ids (job ∷ jobs) = job.job_id ∷ job_ids jobs

-- an id of the view's own is that of its row
abbrev pub IsPlaced : ℕ → Text → Type 0
IsPlaced index id = (k : ℕ) → id ≡ cyclic_job_definition_id k → k ≡ index

abbrev pub ArePlaced : ℕ → List Text → Type 0
ArePlaced index [] = Unit {0}
ArePlaced index (id ∷ ids) = IsPlaced index id × ArePlaced (index + 1) ids

-- an id that a new job can have: no row has it, and it is none of the view's own
abbrev pub IsNew : Text → List Text → Type 0
IsNew id ids = (contains id ids ≡ false) × ((k : ℕ) → id ≢ cyclic_job_definition_id k)

abbrev pub AreIds : List Text → Type 0
AreIds ids = IsDistinct ids × ArePlaced 0 ids

job_ids-append : (xs ys : List CyclicJob) → job_ids (xs ++ ys) ≡ job_ids xs ++ job_ids ys
job_ids-append [] ys = refl
job_ids-append (x ∷ xs) ys = ap (◌∷◌ x.job_id) (job_ids-append xs ys)

pub job_ids-stop_if :
    (p : CyclicJob → Bool) (jobs : List CyclicJob) → job_ids (stop_if p jobs) ≡ job_ids jobs
job_ids-stop_if p [] = refl
job_ids-stop_if p (job ∷ jobs) = ground (arith, job_ids-stop_if p jobs)

definition_id-injective :
    (m n : ℕ) → cyclic_job_definition_id m ≡ cyclic_job_definition_id n → m ≡ n
unfolding cyclic_job_definition_id
definition_id-injective m n e = to_string-injective m n (ap (drop 11) e)

-- a row's own id is in no later row
own_id-absent :
    (index k : ℕ) (ids : List Text)
    → ArePlaced index ids
    → k < index
    → contains (cyclic_job_definition_id k) ids ≡ false
own_id-absent index k [] h less = refl
own_id-absent index k (id ∷ ids) (h, hs) less =
    elim (Bool-cases (same id (cyclic_job_definition_id k))) [
      | inl e ↦ absurd (omega (arith, less, h k ((same_iff id (cyclic_job_definition_id k)).0 e)))
      | inr e ↦ rw e (own_id-absent (index + 1) k ids hs (omega arith))
    ]

ArePlaced-snoc :
    (index : ℕ) (ids : List Text) (id : Text)
    → ArePlaced index ids
    → ((k : ℕ) → id ≢ cyclic_job_definition_id k)
    → ArePlaced index (ids ++ id ∷ [])
ArePlaced-snoc index [] id h new = (λ k e. absurd (new k e), tt)
ArePlaced-snoc index (x ∷ ids) id (h, hs) new = (h, ArePlaced-snoc (index + 1) ids id hs new)

pub start-AreIds :
    (jobs : List CyclicJob) (job : CyclicJob)
    → AreIds (job_ids jobs)
    → IsNew job.job_id (job_ids jobs)
    → AreIds (job_ids (jobs ++ job ∷ []))
start-AreIds jobs job (once, placed) (absent, new) = rw (job_ids-append jobs (job ∷ [])) (
  IsDistinct-snoc (job_ids jobs) job.job_id once absent,
  ArePlaced-snoc 0 (job_ids jobs) job.job_id placed new,
)

-- an id that no row has, and that is not the view's own for these rows, is in no row after a reset
reset_from-absent :
    (index : ℕ) (jobs : List CyclicJob) (id : Text)
    → contains id (job_ids jobs) ≡ false
    → ((k : ℕ) → id ≡ cyclic_job_definition_id k → k < index)
    → contains id (job_ids (reset_from index jobs)) ≡ false
unfolding reset_from
reset_from-absent index [] id h below = refl
reset_from-absent index (job ∷ jobs) id h below =
    let own = cyclic_job_definition_id index in
    let rest =
      reset_from-absent (index + 1) jobs id (ground arith) (λ k e. omega (arith, below k e)) in
    let not_own : id ≢ own = λ e. omega (arith, below index e) in
    ground (arith, rest, same_iff own id, not_own)

pub reset_from-AreIds :
    (index : ℕ) (jobs : List CyclicJob)
    → IsDistinct (job_ids jobs)
    → ArePlaced index (job_ids jobs)
    → IsDistinct (job_ids (reset_from index jobs))
      × ArePlaced index (job_ids (reset_from index jobs))
unfolding reset_from
reset_from-AreIds index [] once placed = (tt, tt)
reset_from-AreIds index (job ∷ jobs) (absent, once) (h, placed) =
    let (rest_once, rest_placed) = reset_from-AreIds (index + 1) jobs once placed in
    elim (Bool-cases (is_running job.status)) [
      | inl e ↦
          let own = cyclic_job_definition_id index in
          let fresh =
            reset_from-absent (index + 1) jobs own
              (own_id-absent (index + 1) index (job_ids jobs) placed (omega arith))
              (λ k q. omega (arith, definition_id-injective index k q)) in
          rw e ((fresh, rest_once), (λ k q. sym (definition_id-injective index k q), rest_placed))
      | inr e ↦
          let fresh =
            reset_from-absent (index + 1) jobs job.job_id absent (λ k q. omega (arith, h k q)) in
          rw e ((fresh, rest_once), (h, rest_placed))
    ]

pub remembered_from-AreIds :
    (index : ℕ) (jobs : List PersistedCyclicJob)
    → IsDistinct (job_ids (remembered_from index jobs))
      × ArePlaced index (job_ids (remembered_from index jobs))
unfolding remembered_from
remembered_from-AreIds index [] = (tt, tt)
remembered_from-AreIds index (job ∷ jobs) =
    let (once, placed) = remembered_from-AreIds (index + 1) jobs in
    (
      (
        own_id-absent (index + 1) index (job_ids (remembered_from (index + 1) jobs)) placed
            (omega arith),
        once,
      ),
      (λ k q. sym (definition_id-injective index k q), placed),
    )
