-- ===== src/Jobs/Successes.antt =====
-- A run of `JobRunner`, src/pytitect/jobs.py, adds a decision for each job that it reports as succeeded.
use pytitect.Prelude.{
  ℕ, ◌+◌, not_positive, ◌≡◌, refl, String, Option, none, some, List, [], ◌∷◌, arith, length, Result,
  ok, err, ◌>>=◌, Datetime, utc, other, Timedelta, lift, inl, inr, Bool-cases, ◌==◌, String_eq,
  ℕ_eq, option_eq,
}
use pytitect.Outbox.Types.{Floats, RetryPolicy, delay}
use pytitect.Outbox.Dispatch.{on_store, later}
use pytitect.Jobs.Types.{
  Job, JobClaim, JobTransition, job_succeeded, job_retried, job_terminated, stale_job_claim,
}
use pytitect.Jobs.Store.{JobStore, succeed, retry, terminate, claim, claim_locked}
use pytitect.Jobs.Decisions.{
  Ends, bind-Ends, map-Ends, success, Decided, succeed-Decided, retry-Decided, terminate-Decided,
}
use pytitect.Jobs.Runner.{
  JobPort, in_memory, Handled, decided, permanent, raised, JobRunSummary, count, settle, handle,
  run_claims, run_once,
}

on_store-Ends :
    {S W A : Type 0} (Q : A → S → Type 0) (p : Result A × S) (w : W)
    → Ends Q p
    → Ends (λ a (sw : S × W). Q a sw.0) (on_store (λ s. p) (p.1, w))
on_store-Ends Q (ok a, s) w h = h
on_store-Ends Q (err e, s) w h = tt

module _ {J D W F : Type 0} (floats : Floats F) (policy : RetryPolicy F)
    (sanitize : String → String) (uuid : ℕ → String) (now : Datetime) where
  settle-Decided :
      (c : JobClaim J) (result : Handled D) (s : JobStore J D) (w : W)
      → Ends
          (λ answer (sw : JobStore J D × W). Decided s answer sw.0)
          (settle floats policy (in_memory sanitize uuid) now c result (s, w))
  unfolding settle
  settle-Decided c (decided decision) s w =
      on_store-Ends (Decided s) (succeed c decision now s) w
        (succeed-Decided sanitize c decision now s)
  settle-Decided c (permanent message) s w =
      on_store-Ends (Decided s) (terminate sanitize c message now s) w
        (terminate-Decided sanitize c message now s)
  settle-Decided c (raised name) s w = waited (delay floats policy (c.job.attempt + 1))
    where
      waited :
          (r : Result ℕ)
          → Ends
              (λ answer (sw : JobStore J D × W). Decided s answer sw.0)
              ((lift r >>= λ wait. on_store (retry sanitize c name (later now wait))) (s, w))
      waited (err e) = tt
      waited (ok wait) =
          on_store-Ends (Decided s) (retry sanitize c name (later now wait) s) w
            (retry-Decided sanitize c name (later now wait) s)

-- The summary that a run starts its count from
abbrev pub start : {J : Type 0} → List (JobClaim J) → JobRunSummary
start claims = record { claimed = length claims; succeeded = 0; retried = 0; terminated = 0 }

module _ {J D W : Type 0} where
  -- The decisions and the successes grow by one number.
  abbrev pub Grown : JobRunSummary → JobStore J D → JobRunSummary → JobStore J D × W → Type 0
  Grown before s after sw =
      length sw.0.decisions + before.succeeded ≡ length s.decisions + after.succeeded

count-success :
    (answer : JobTransition) (counts : JobRunSummary)
    → (count answer counts).succeeded ≡ counts.succeeded + success answer
count-success job_succeeded counts = omega arith
count-success (job_retried t) counts = omega arith
count-success (job_terminated reason) counts = omega arith
count-success stale_job_claim counts = omega arith

-- A claim adds no decision.
claim-Ends :
    {J D : Type 0} (uuid : ℕ → String) (now : Datetime) (limit : ℕ) (ttl : Timedelta)
    (s : JobStore J D)
    → Ends (λ claims s'. length s'.decisions ≡ length s.decisions) (claim uuid now limit ttl s)
unfolding claim claim_locked
claim-Ends uuid (other t) limit ttl s = tt
claim-Ends uuid (utc t) limit ttl s = elim (Bool-cases (limit == 0)) [
  | inl zero ↦ rw zero tt
  | inr more ↦
      rw more
        (elim (Bool-cases (not_positive ttl)) [ inl short ↦ rw short tt | inr long ↦ rw long refl ])
]

module _ {J D W F : Type 0} (floats : Floats F) (policy : RetryPolicy F)
    (sanitize : String → String) (uuid : ℕ → String) (now : Datetime)
    (handlers : String → Option (Job J → W → Handled D × W)) where
  handle-Ends :
      (o : Option (Job J → W → Handled D × W)) (job : Job J) (s : JobStore J D) (w : W)
      → Ends
          (λ result sw. length sw.0.decisions ≡ length s.decisions)
          (handle floats policy (in_memory sanitize uuid) now handlers o job (s, w))
  handle-Ends none job s w = refl
  handle-Ends (some handler) job s w = refl

  run_claims-Grown :
      (claims : List (JobClaim J)) (counts : JobRunSummary) (s : JobStore J D) (w : W)
      → Ends
          (Grown {W = W} counts s)
          (run_claims floats policy (in_memory sanitize uuid) now handlers claims counts (s, w))
  unfolding run_claims
  run_claims-Grown [] counts s w = refl
  run_claims-Grown (c ∷ cs) counts s w =
      let port : JobPort (JobStore J D) J D = in_memory sanitize uuid in
      let Q = Grown {W = W} counts s in
      let P = λ (result : Handled D) (sw : JobStore J D × W).
        length sw.0.decisions ≡ length s.decisions in
      let R = λ (answer : JobTransition) (sw : JobStore J D × W).
        length sw.0.decisions ≡ length s.decisions + success answer in
      let settled = λ (result : Handled D) (sw : JobStore J D × W) (h : P result sw).
        map-Ends (λ answer sw'. Decided sw.0 answer sw'.0) R (λ answer sw' d. omega (arith, d, h))
          (settle floats policy port now c result sw)
          (settle-Decided floats policy sanitize uuid now c result sw.0 sw.1) in
      let rest = λ (answer : JobTransition) (sw : JobStore J D × W) (h : R answer sw).
        map-Ends (Grown {W = W} (count answer counts) sw.0) Q
          (λ after sw' d. omega (arith, d, h, count-success answer counts))
          (run_claims floats policy port now handlers cs (count answer counts) sw)
          (run_claims-Grown cs (count answer counts) sw.0 sw.1) in
      bind-Ends P Q
        (λ result. settle floats policy port now c result >>= λ answer.
          run_claims floats policy port now handlers cs (count answer counts))
        (λ result sw h.
          bind-Ends R Q
            (λ answer. run_claims floats policy port now handlers cs (count answer counts)) rest
            (settle floats policy port now c result) sw (settled result sw h))
        (handle floats policy port now handlers (handlers c.job.task) c.job) (s, w)
        (handle-Ends (handlers c.job.task) c.job s w)

  -- A run adds as many decisions as jobs that it reports as succeeded.
  pub run_once-Successes :
      (limit : ℕ) (ttl : Timedelta) (s : JobStore J D) (w : W)
      → Ends
          (λ summary sw. length sw.0.decisions ≡ length s.decisions + summary.succeeded)
          (run_once floats policy (in_memory sanitize uuid) now handlers limit ttl (s, w))
  unfolding run_once
  run_once-Successes limit ttl s w =
      let port : JobPort (JobStore J D) J D = in_memory sanitize uuid in
      let Q = λ (summary : JobRunSummary) (sw : JobStore J D × W).
        length sw.0.decisions ≡ length s.decisions + summary.succeeded in
      bind-Ends (λ claims (sw : JobStore J D × W). length sw.0.decisions ≡ length s.decisions) Q
        (λ claims. run_claims floats policy port now handlers claims (start claims))
        (λ claims sw h.
          map-Ends (Grown {W = W} (start claims) sw.0) Q (λ after sw' d. omega (arith, d, h))
            (run_claims floats policy port now handlers claims (start claims) sw)
            (run_claims-Grown claims (start claims) sw.0 sw.1))
        (on_store (claim uuid now limit ttl)) (s, w)
        (on_store-Ends (λ claims s'. length s'.decisions ≡ length s.decisions)
          (claim uuid now limit ttl s) w (claim-Ends uuid now limit ttl s))
