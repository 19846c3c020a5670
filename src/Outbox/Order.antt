-- ===== src/Outbox/Order.antt =====
-- `claim` of src/pytitect/outbox.py takes what has been available the longest.
use pytitect.Prelude.{
  ℕ, zero, suc, ◌≤◌, String, true, false, ◌≡◌, ◌≢◌, refl, ◌∙◌, some, List, [], ◌∷◌, length, filter,
  take, ◌==◌, ℕ_eq, String_eq, arith, inl, inr, Bool-cases, All, ok, utc, Timedelta, not_positive,
  ◌+ₜ◌,
}
use pytitect.Prelude.Dict.{Dict, get, keys, elem}
use pytitect.Prelude.Sorting.{sorted, key_then, sorted-IsSortedBy, filter-IsSortedBy}
use pytitect.Maintenance.Selection.{get-sorted, sorted-IsUnique, get-filter, take_oldest}
use pytitect.Outbox.Types.{OutboxClaim, Stored}
use pytitect.Outbox.Store.{OutboxStore, available_at, id_leb, is_eligible, claim}
use pytitect.Outbox.Claiming.{claims, chosen, chosen-Selected}
use pytitect.Outbox.Validity.{IsValid}
use pytitect.Outbox.Round.{Own, chosen-Own, length-claims, claim_ok}

-- A prefix without a key that the dictionary has is as long as was asked for.
length-take_missing :
    {V : Type 0} (n : ℕ) (c : Dict String V) (j : String) (v : V)
    → get j c ≡ some v
    → elem j (keys (take n c)) ≡ false
    → length (take n c) ≡ n
unfolding get
length-take_missing zero c j v h out = refl
length-take_missing (suc n) [] j v h out = absurd (cc h)
length-take_missing (suc n) ((k, w) ∷ c) j v h out =
    ground (arith, length-take_missing n c j v, h, out)

module _ {P : Type 0} where
  -- A message that none of the claims is of is not among the chosen.
  missing :
      (until : ℕ) (uuid : ℕ → String) (n : ℕ) (l : Dict String (Stored P)) (j : String)
      → All Own l
      → All (λ (c : OutboxClaim P). c.envelope.message_id ≢ j) (claims until uuid n l)
      → elem j (keys l) ≡ false
  missing until uuid n [] j own h = refl
  missing until uuid n ((k, x) ∷ l) j own h =
      let later : elem j (keys l) ≡ false = missing until uuid (suc n) l j own.1 h.1 in
      elim (Bool-cases (k == j)) [
        | inl same ↦ absurd (h.0 (own.0.0 ∙ (String_eq.beq_iff k j).0 same))
        | inr differs ↦ rw (differs, later) refl
      ]

  claims_oldest :
      (until b : ℕ) (uuid : ℕ → String) (n : ℕ) (l : Dict String (Stored P))
      → All (λ y. available_at y ≤ b) l
      → All (λ (c : OutboxClaim P). c.envelope.available_at ≤ b) (claims until uuid n l)
  claims_oldest until b uuid n [] h = tt
  claims_oldest until b uuid n ((k, x) ∷ l) h = (h.0, claims_oldest until b uuid (suc n) l h.1)

  -- Where a claim on a well-formed store leaves out a message that was eligible, it returns as many
  -- claims as its limit, and none of a message that became available later than that one.
  pub claim_takes_oldest :
      (uuid : ℕ → String) (t limit : ℕ) (ttl : Timedelta) (s : OutboxStore P)
      (got : List (OutboxClaim P)) (j : String) (x : Stored P)
      → IsValid s
      → (limit == 0) ≡ false
      → not_positive ttl ≡ false
      → (claim uuid (utc t) limit ttl s).0 ≡ ok got
      → get j s.items ≡ some x
      → is_eligible t (j, x) ≡ true
      → All (λ c. c.envelope.message_id ≢ j) got
      → (length got ≡ limit) × All (λ c. c.envelope.available_at ≤ x.envelope.available_at) got
  claim_takes_oldest uuid t limit ttl s got j x v some_ positive took there ready left =
      let until = t +ₜ ttl in
      let l = chosen t limit s in
      let leq = key_then available_at id_leb in
      let c = filter (is_eligible t) (sorted leq s.items) in
      let same : claims until uuid 0 l ≡ got =
        ok_of (rw (claim_ok uuid t s limit ttl some_ positive) at took) in
      let out : elem j (keys l) ≡ false =
        missing until uuid 0 l j (chosen-Own t s l v (chosen-Selected t limit s v.unique))
          (rw (← same) at left) in
      let inside : get j c ≡ some x =
        get-filter (is_eligible t) (sorted leq s.items) j x (sorted-IsUnique leq s.items v.unique)
          (get-sorted leq s.items j v.unique ∙ there) ready in
      rw (← same) (
        length-claims until uuid 0 l ∙ length-take_missing limit c j x inside out,
        claims_oldest until x.envelope.available_at uuid 0 l (
            take_oldest available_at limit c j x
              (filter-IsSortedBy available_at (is_eligible t) (sorted leq s.items)
                (sorted-IsSortedBy available_at id_leb s.items))
              inside out),
      )
    where
      ok_of : {a b : List (OutboxClaim P)} → ok a ≡ ok b → a ≡ b
      ok_of h = cc h
