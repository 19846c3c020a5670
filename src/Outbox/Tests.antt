-- ===== src/Outbox/Tests.antt =====
-- Tests of the outbox: two messages, of which the first is claimed, and theorems applied to them.
use Prim.Native.Nat.{◌*◌}
use pytitect.Prelude.{
  ℕ, zero, suc, ◌+◌, ◌≤◌, String, true, false, ◌≡◌, ◌≢◌, refl, some, List, [], ◌∷◌, length, arith,
  ok, utc, pos, All, ℕ_eq, String_eq, option_eq, ◌==◌, Action,
}
use pytitect.Prelude.Dict.{get, put, pop_all}
use pytitect.Maintenance.{remaining, select}
use pytitect.Outbox.Maintain.{purge_delivered}
use pytitect.Prelude.Sorting.{sorted}
use pytitect.Outbox.Types.{
  OutboxEnvelope, OutboxClaim, outbox_duplicate, DeliveryResult, Stored, Floats, RetryPolicy,
  retry_policy, delay,
}
use pytitect.Outbox.Store.{OutboxStore, stored, held, claim, add, delivered}
use pytitect.Outbox.Claiming.{chosen}
use pytitect.Outbox.Calls.{Call, perform, perform_all}
use pytitect.Outbox.Moves.{Move}
use pytitect.Outbox.Validity.{IsValid, All-Sound, perform_outbox-IsValid, perform-Move}
use pytitect.Outbox.Finality.{delivered_final}
use pytitect.Outbox.Spent.{as_delivered, as_retry, settle_as, claim_spent}
use pytitect.Outbox.Order.{claim_takes_oldest}
use pytitect.Outbox.Delay.{Within, delay_bounds}
use pytitect.Outbox.Dispatch.{dispatch, in_memory, DispatchSummary}
use pytitect.Outbox.Loop.{IsReleased}
use pytitect.Outbox.Round.{dispatch_settles}

abbrev first : OutboxEnvelope ℕ
first = record {
  message_id = "m1";
  topic = "events";
  payload = 7;
  occurred_at = 1;
  available_at = 1;
  attempt = 0;
}

abbrev second : OutboxEnvelope ℕ
second = record {
  message_id = "m2";
  topic = "events";
  payload = 8;
  occurred_at = 2;
  available_at = 5;
  attempt = 0;
}

abbrev taken : OutboxClaim ℕ
taken = record { claim_id = "c1"; envelope = first; claimed_until = 40 }

abbrev two : OutboxStore ℕ
two = record {
  capacity = 3;
  items = ("m1", held "c1" 40 (stored first)) ∷ ("m2", stored second) ∷ [];
}

two-IsValid : IsValid two
unfolding get
two-IsValid = record {
  within = omega arith;
  unique = (refl, (refl, tt));
  sound = All-Sound two.items (refl, (refl, tt));
}

-- `uuid4` of a claim.
abbrev ids : ℕ → String
ids n = "c2"

claim_second :
    (claim ids (utc 20) 2 (pos 10) two).0
    ≡ ok (record { claim_id = "c2"; envelope = second; claimed_until = 30 } ∷ [])
unfolding claim sorted get put
claim_second = refl

deliver_first : (delivered taken (utc 30) two).0 ≡ ok true
unfolding delivered get put
deliver_first = refl

abbrev calls : List (Call ℕ)
calls =
    Call.claim ids (utc 31) 2 (pos 10)
    ∷ Call.purge_delivered (record { cutoff = 29; batch_size = 9; dry_run = false })
    ∷ []

perform_outbox-IsValid_example : IsValid (perform (Call.delivered taken (utc 30)) two)
perform_outbox-IsValid_example =
    perform_outbox-IsValid (Call.delivered taken (utc 30)) two two-IsValid

perform-Move_example :
    Move
      (Call.delivered taken (utc 30))
      "m1"
      (get "m1" two.items)
      (get "m1" (perform (Call.delivered taken (utc 30)) two).items)
perform-Move_example = perform-Move (Call.delivered taken (utc 30)) two "m1" two-IsValid.unique

claim_spent_example :
    let s' = perform_all calls (settle_as (as_delivered (utc 30)) taken two).1 in
    ((settle_as (as_retry (utc 33)) taken s').0 ≢ ok true)
    × ((settle_as (as_retry (utc 33)) taken s').1 ≡ s')
unfolding settle_as
claim_spent_example =
    claim_spent (as_delivered (utc 30)) (as_retry (utc 33)) taken two calls two-IsValid
      deliver_first (λ h. differs h.1, (λ h. absurd h, tt))
  where
    differs : ◌≡◌ {A = String} "c2" "c1" → ⊥
    differs h = ground (arith, String_eq.beq_iff "c2" "c1", h)

-- Both messages are free.
abbrev both : OutboxStore ℕ
both = record { capacity = 3; items = ("m2", stored second) ∷ ("m1", stored first) ∷ [] }

both-IsValid : IsValid both
unfolding get
both-IsValid = record {
  within = omega arith;
  unique = (refl, (refl, tt));
  sound = All-Sound both.items (refl, (refl, tt));
}

abbrev one_claim : List (OutboxClaim ℕ)
one_claim = record { claim_id = "c2"; envelope = first; claimed_until = 30 } ∷ []

claim_one : (claim ids (utc 20) 1 (pos 10) both).0 ≡ ok one_claim
unfolding claim sorted get put
claim_one = refl

claim_takes_oldest_example :
    (length one_claim ≡ 1) × All (λ (c : OutboxClaim ℕ). c.envelope.available_at ≤ 5) one_claim
unfolding get
claim_takes_oldest_example =
    claim_takes_oldest ids 20 1 (pos 10) both one_claim "m2" (stored second) both-IsValid refl refl
      claim_one refl refl (λ h. ground (arith, String_eq.beq_iff "m1" "m2", h), tt)

delivered_final_example :
    let s' = perform_all calls (delivered taken (utc 30) two).1 in
    All (λ (k : OutboxClaim ℕ). k.envelope.message_id ≢ "m1") []
    × (add first s' ≡ (ok outbox_duplicate, s'))
    × ((item : Stored ℕ) × (get "m1" s'.items ≡ some item) × (item.delivered_at ≡ some 30))
unfolding perform_all delivered claim sorted get put pop_all purge_delivered remaining select
delivered_final_example =
    delivered_final taken 30 two calls ids 32 2 (pos 10) [] first two-IsValid deliver_first
      (refl, (refl, tt)) refl refl

-- `duration * multiplier ** exponent`
scale : ℕ → ℕ → ℕ → ℕ
scale d f zero = d
scale d f (suc n) = scale d f n * f

scale_grows : (d f n : ℕ) → (f == 0) ≡ false → d ≤ scale d f n
unfolding scale
scale_grows d f zero h = omega arith
scale_grows d zero (suc n) h = absurd (ground (arith, h))
scale_grows d (suc f) (suc n) h = grind (arith, scale_grows d (suc f) n h)

abbrev whole : Floats ℕ
whole = record {
  isfinite = λ f. true;
  below_one = λ f. f == 0;
  is_one = λ f. f == 1;
  reaches = λ n maximum initial f. false;
  scaled = λ d f n. scale d f n;
}

abbrev doubling : RetryPolicy ℕ
doubling = record { initial_delay = 4; multiplier = 2; maximum_delay = 60; max_attempts = 3 }

doubling_made : retry_policy whole (pos 4) 2 (pos 60) 3 ≡ ok doubling
unfolding retry_policy
doubling_made = refl

delay_third : delay whole doubling 3 ≡ ok 16
unfolding delay scale
delay_third = refl

delay_bounds_example : Within whole doubling (delay whole doubling 3)
delay_bounds_example =
    delay_bounds whole (pos 4) (pos 60) 2 3 3 doubling doubling_made (λ d n h. scale_grows d 2 n h)
      (omega arith)

-- A handler that counts and delivers.
abbrev deliver : OutboxEnvelope ℕ → Action ℕ DeliveryResult
deliver e n = (ok DeliveryResult.delivered, suc n)

dispatch_settles_example :
    (summary : DispatchSummary) × (s' : OutboxStore ℕ) × (w' : ℕ) × (dispatch whole doubling
        (in_memory ids)
        (utc 20)
        deliver
        (pos 10)
        2
        (both, 0)
      ≡ (ok summary, (s', w')))
    × (summary.claimed ≡ length (chosen 20 2 both))
    × (summary.delivered + summary.retried + summary.failed ≡ summary.claimed)
    × All (λ x. IsReleased (get x.0 s'.items)) (chosen 20 2 both)
dispatch_settles_example =
    dispatch_settles whole doubling ids 20 deliver both 0 2 (pos 10) both-IsValid (omega arith) refl
      (λ e w. (DeliveryResult.delivered, suc w, refl, refl))
