-- ===== src/Jobs/Bounds.antt =====
-- The summary of `JobRunner.run_once`, src/pytitect/jobs.py, on the in-memory store.
use pytitect.Prelude.{
  ℕ, suc, ◌+◌, ◌≤◌, String, Option, List, [], ◌∷◌, leb, length, arith, ◌≡◌, refl, ◌∙◌, inl, inr,
  Bool-cases, Action, Result, ok, err, ◌>>=◌, Datetime, utc, other, Timedelta, not_positive, ◌==◌,
  ℕ_eq, String_eq, raise_if, ◌>>◌, ◌+ₜ◌, value_error,
}
use pytitect.Prelude.Dict.{Dict, put}
use pytitect.Prelude.Sorting.{sorted, key_then}
use pytitect.Outbox.Types.{Floats, RetryPolicy}
use pytitect.Outbox.Dispatch.{on_store}
use pytitect.Jobs.Types.{
  Job, JobClaim, JobTransition, job_succeeded, job_retried, job_terminated, stale_job_claim,
}
use pytitect.Jobs.Store.{
  JobStore, StoredJob, claim, claim_locked, claim_items, run_time, id_leb, is_eligible, held,
}
use pytitect.Jobs.Decisions.{Ends}
use pytitect.Jobs.Successes.{start, run_once-Successes}
use pytitect.Jobs.Runner.{
  JobPort, in_memory, Handled, JobRunSummary, count, settle, handle, run_claims, run_once,
}

-- What holds of a value that is returned.
abbrev pub Returned : {A : Type 0} → (A → Type 0) → Result A → Type 0
Returned Q (ok a) = Q a
Returned Q (err e) = Unit

module _ {S A B : Type 0} (P : A → Type 0) (Q : B → Type 0) (f : A → Action S B)
    (next : (a : A) → P a → (s : S) → Returned Q (f a s).0) where
  continue-Returned :
      (p : Result A × S) → Returned P p.0 → Returned Q (((λ (s : S). p) >>= f) p.1).0
  continue-Returned (ok a, s) first = next a first s
  continue-Returned (err e, s) first = tt

  bind-Returned : (m : Action S A) (s : S) → Returned P (m s).0 → Returned Q ((m >>= f) s).0
  bind-Returned m s first = continue-Returned (m s) first

any-Returned : {A : Type 0} (r : Result A) → Returned (λ _. Unit) r
any-Returned (ok a) = tt
any-Returned (err e) = tt

returned :
    {S A : Type 0} (Q : A → Type 0) (p : Result A × S) (a : A) (s : S)
    → p ≡ (ok a, s)
    → Returned Q p.0
    → Q a
returned Q p a s e h = simp e at h

ended :
    {S A : Type 0} (Q : A → S → Type 0) (p : Result A × S) (a : A) (s : S)
    → p ≡ (ok a, s)
    → Ends Q p
    → Q a s
ended Q p a s e h = simp e at h

map-Returned :
    {A : Type 0} {P Q : A → Type 0}
    → ((a : A) → P a → Q a)
    → (r : Result A) → Returned P r
    → Returned Q r
map-Returned f (ok a) p = f a p
map-Returned f (err e) p = tt

abbrev pub settled : JobRunSummary → ℕ
settled counts = counts.succeeded + counts.retried + counts.terminated

abbrev pub IsWithin : ℕ → JobRunSummary → JobRunSummary → Type 0
IsWithin n before after = (after.claimed ≡ before.claimed) × (settled after ≤ settled before + n)

count-IsWithin :
    (answer : JobTransition) (before : JobRunSummary) → IsWithin 1 before (count answer before)
count-IsWithin job_succeeded before = (refl, omega arith)
count-IsWithin (job_retried t) before = (refl, omega arith)
count-IsWithin (job_terminated reason) before = (refl, omega arith)
count-IsWithin stale_job_claim before = (refl, omega arith)

module _ {J : Type 0} (now limit until : ℕ) (uuid : ℕ → String) where
  claim_items_bound :
      (n : ℕ) (items : List (String × StoredJob J)) (jobs : Dict String (StoredJob J))
      → n ≤ limit
      → n + length (claim_items now limit until uuid n items jobs).0 ≤ limit
  unfolding claim_items
  claim_items_bound n [] jobs h = omega arith
  claim_items_bound n ((i, item) ∷ rest) jobs h = elim (Bool-cases (leb limit n)) [
    | inl full ↦ rw full (omega arith)
    | inr free ↦ rw free (elim (Bool-cases (is_eligible now item)) [
      | inl take ↦ rw take (
          let more : suc n ≤ limit = ground (arith, free) in
          let rest_bound =
            claim_items_bound (suc n) rest (put i (held (uuid n) until item) jobs) more in
          omega arith)
      | inr skip ↦ rw skip (claim_items_bound n rest jobs h)
    ])
  ]

one_more :
    (n : ℕ) (answer : JobTransition) (counts after : JobRunSummary)
    → IsWithin n (count answer counts) after
    → IsWithin (suc n) counts after
one_more n answer counts after (e, le) =
    let (e', le') = count-IsWithin answer counts in (e ∙ e', omega arith)

module _ {S J D W F : Type 0} (floats : Floats F) (policy : RetryPolicy F) (store : JobPort S J D)
    (now : Datetime) (handlers : String → Option (Job J → W → Handled D × W)) where
  run_claims-IsWithin :
      (claims : List (JobClaim J)) (counts : JobRunSummary) (sw : S × W)
      → Returned
          (IsWithin (length claims) counts)
          (run_claims floats policy store now handlers claims counts sw).0
  unfolding run_claims
  run_claims-IsWithin [] counts sw = (refl, omega arith)
  run_claims-IsWithin (claim ∷ claims) counts sw =
      let Q = IsWithin (suc (length claims)) counts in
      let rest = λ (answer : JobTransition) (any : Unit) (sw : S × W).
        map-Returned (one_more (length claims) answer counts)
          (run_claims floats policy store now handlers claims (count answer counts) sw).0
          (run_claims-IsWithin claims (count answer counts) sw) in
      bind-Returned (λ _. Unit) Q
        (λ result. settle floats policy store now claim result >>= λ answer.
          run_claims floats policy store now handlers claims (count answer counts))
        (λ result any sw.
          bind-Returned (λ _. Unit) Q
            (λ answer. run_claims floats policy store now handlers claims (count answer counts))
            rest (settle floats policy store now claim result) sw (any-Returned _))
        (handle floats policy store now handlers (handlers claim.job.task) claim.job) sw
        (any-Returned _)

-- The claims settled are some of those made, at most `limit`.
abbrev pub Summed : ℕ → JobRunSummary → Type 0
Summed limit summary = (settled summary ≤ summary.claimed) × (summary.claimed ≤ limit)

claim_bound :
    {J D : Type 0} (uuid : ℕ → String) (now : Datetime) (limit : ℕ) (ttl : Timedelta)
    (s : JobStore J D)
    → Returned (λ claims. length claims ≤ limit) (claim uuid now limit ttl s).0
unfolding claim claim_locked
claim_bound uuid (other t) limit ttl s = tt
claim_bound uuid (utc t) limit ttl s =
    let Q = λ (claims : List (JobClaim _)). length claims ≤ limit in
    bind-Returned (λ _. Unit) Q
      (λ _. raise_if (not_positive ttl) value_error >> claim_locked uuid t limit (t +ₜ ttl))
      (λ _ any s.
        bind-Returned (λ _. Unit) Q (λ _. claim_locked uuid t limit (t +ₜ ttl))
          (λ _ any s.
            let bound =
              claim_items_bound t limit (t +ₜ ttl) uuid 0 (sorted (key_then run_time id_leb) s.jobs)
                s.jobs (omega arith) in
            omega arith)
          (raise_if (not_positive ttl) value_error) s (any-Returned _))
      (raise_if (limit == 0) value_error) s (any-Returned _)

module _ {J D W F : Type 0} (floats : Floats F) (policy : RetryPolicy F)
    (sanitize : String → String) (uuid : ℕ → String) (now : Datetime)
    (handlers : String → Option (Job J → W → Handled D × W)) where
  run_once-Summed :
      (limit : ℕ) (ttl : Timedelta) (s : JobStore J D) (w : W)
      → Returned
          (Summed limit)
          (run_once floats policy (in_memory sanitize uuid) now handlers limit ttl (s, w)).0
  unfolding run_once
  run_once-Summed limit ttl s w =
      bind-Returned (λ claims. length claims ≤ limit) (Summed limit)
        (λ claims.
          run_claims floats policy (in_memory sanitize uuid) now handlers claims (start claims))
        (λ claims bound sw.
          map-Returned (λ summary (e, le). (omega arith, omega arith))
            (run_claims floats policy (in_memory sanitize uuid) now handlers claims (start claims)
              sw).0
            (run_claims-IsWithin floats policy (in_memory sanitize uuid) now handlers claims
              (start claims) sw))
        (on_store (claim uuid now limit ttl)) (s, w) (claim_bound uuid now limit ttl s)

  -- A run of the job runner on the in-memory store that returns reports at most as many claims as
  -- its limit, and no more jobs that succeeded, were retried or were terminated, taken together,
  -- than claims; and the store has as many decisions more as jobs that it reports as succeeded.
  pub run_once_bounds :
      (limit : ℕ) (ttl : Timedelta) (s s' : JobStore J D) (w w' : W) (summary : JobRunSummary)
      → run_once floats policy (in_memory sanitize uuid) now handlers limit ttl (s, w)
        ≡ (ok summary, (s', w'))
      → Summed limit summary × (length s'.decisions ≡ length s.decisions + summary.succeeded)
  run_once_bounds limit ttl s s' w w' summary e =
      let run = run_once floats policy (in_memory sanitize uuid) now handlers limit ttl (s, w) in
      (
        returned (Summed limit) run summary (s', w') e (run_once-Summed limit ttl s w),
        ended
            (λ summary (sw : JobStore J D × W).
              length sw.0.decisions ≡ length s.decisions + summary.succeeded)
            run summary (s', w') e
            (run_once-Successes floats policy sanitize uuid now handlers limit ttl s w),
      )
