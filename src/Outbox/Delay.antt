-- ===== src/Outbox/Delay.antt =====
-- The bounds of the retry delay.
use pytitect.Prelude.{
  ℕ, ◌+◌, ◌-◌, ◌≤◌, ◌<◌, false, ◌≡◌, refl, ok, arith, Timedelta, pos, negsuc, Result, if_either,
  inl, inr, Bool-cases, leb, ◌==◌, ℕ_eq, if◌then◌else◌,
}
use Prim.Native.Nat.{min}
use pytitect.Outbox.Types.{Floats, RetryPolicy, retry_policy, delay}

module _ {F : Type 0} (floats : Floats F) where
  -- What a policy that its constructor accepted is known to have.
  record Checked (multiplier : F) (policy : RetryPolicy F) : Type 0 where
    same : policy.multiplier ≡ multiplier
    grown : floats.below_one multiplier ≡ false
    initial : 0 < policy.initial_delay
    maximum : 0 < policy.maximum_delay

  retry_policy-Checked :
      (initial_delay maximum_delay : Timedelta) (multiplier : F) (max_attempts : ℕ)
      (policy : RetryPolicy F)
      → retry_policy floats initial_delay multiplier maximum_delay max_attempts ≡ ok policy
      → Checked multiplier policy
  unfolding retry_policy
  retry_policy-Checked (negsuc m) maximum_delay multiplier max_attempts policy made =
      absurd (cc made)
  retry_policy-Checked (pos m) (negsuc n) multiplier max_attempts policy made = absurd (cc made)
  retry_policy-Checked (pos m) (pos n) multiplier max_attempts policy made = record {
    same = ground (arith, made);
    grown = ground (arith, made);
    initial = ground (arith, made);
    maximum = ground (arith, made);
  }

  -- A duration that is positive, at most the maximum, and at least the smaller of the two delays.
  abbrev pub Within : RetryPolicy F → Result ℕ → Type 0
  Within policy r =
      (d : ℕ) × (r ≡ ok d)
      × (0 < d)
      × (d ≤ policy.maximum_delay)
      × (min policy.initial_delay policy.maximum_delay ≤ d)

  delay-Within :
      (policy : RetryPolicy F) (attempt : ℕ)
      → 0 < attempt
      → 0 < policy.initial_delay
      → 0 < policy.maximum_delay
      → policy.initial_delay ≤ floats.scaled policy.initial_delay policy.multiplier (attempt - 1)
      → Within policy (delay floats policy attempt)
  unfolding delay
  delay-Within policy attempt one i m grows =
      let first : (attempt == 0) ≡ false = ground arith in
      let maximum : Within policy (ok policy.maximum_delay) =
        (policy.maximum_delay, refl, m, omega arith, omega arith) in
      rw first (elim (Bool-cases (leb policy.maximum_delay policy.initial_delay)) [
        | inl above ↦ rw above maximum
        | inr below ↦ rw below (
            if_either (Within policy) (floats.is_one policy.multiplier)
              (policy.initial_delay, refl, i, ground arith, ground arith)
              (if_either (Within policy)
                (floats.reaches (attempt - 1) policy.maximum_delay policy.initial_delay
                  policy.multiplier)
                maximum
                (let grown = floats.scaled policy.initial_delay policy.multiplier (attempt - 1) in
                  elim (Bool-cases (leb grown policy.maximum_delay)) [
                    | inl fits ↦ rw fits (grown, refl, ground arith, ground arith, ground arith)
                    | inr over ↦ rw over maximum
                  ])))
      ])

  -- The delay of a policy that its constructor accepted is, for an attempt from one on, positive, at most
  -- the maximum delay, and at least the smaller of the two delays, where a power of a multiplier that is not
  -- below one makes no duration shorter.
  pub delay_bounds :
      (initial_delay maximum_delay : Timedelta) (multiplier : F) (max_attempts attempt : ℕ)
      (policy : RetryPolicy F)
      → retry_policy floats initial_delay multiplier maximum_delay max_attempts ≡ ok policy
      → ((d n : ℕ) → floats.below_one multiplier ≡ false → d ≤ floats.scaled d multiplier n)
      → 0 < attempt
      → Within policy (delay floats policy attempt)
  delay_bounds initial_delay maximum_delay multiplier max_attempts attempt policy made grows one =
      let c =
        retry_policy-Checked initial_delay maximum_delay multiplier max_attempts policy made in
      delay-Within policy attempt one c.initial c.maximum
        (rw c.same (grows policy.initial_delay (attempt - 1) c.grown))

  -- For an attempt from one on there is a delay, whatever the policy.
  pub delay_some : (policy : RetryPolicy F) (n : ℕ) → (d : ℕ) × (delay floats policy (n + 1) ≡ ok d)
  unfolding delay
  delay_some policy n =
      let Some = λ (r : Result ℕ). (d : ℕ) × (r ≡ ok d) in
      let later : (n + 1 == 0) ≡ false = ground arith in
      rw later (
        if_either Some (leb policy.maximum_delay policy.initial_delay) (policy.maximum_delay, refl)
          (if_either Some (floats.is_one policy.multiplier) (policy.initial_delay, refl)
            (if_either Some
              (floats.reaches (n + 1 - 1) policy.maximum_delay policy.initial_delay
                policy.multiplier)
              (policy.maximum_delay, refl)
              (
                if leb (floats.scaled policy.initial_delay policy.multiplier (n + 1 - 1))
                      policy.maximum_delay
                    then floats.scaled policy.initial_delay policy.multiplier (n + 1 - 1)
                    else policy.maximum_delay,
                refl,
              ))))
