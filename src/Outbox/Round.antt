-- ===== src/Outbox/Round.antt =====
-- A round of the dispatcher on the in-memory store settles every message that it claims.
use pytitect.Prelude.{
  ℕ, suc, ◌+◌, ◌<◌, String, false, ◌≡◌, ◌≢◌, refl, ◌∙◌, none, some, List, [], ◌∷◌, length, ◌==◌,
  ℕ_eq, String_eq, arith, All, pure, bind_ok, ◌>>=◌, Action, ok, utc, Timedelta, not_positive, ◌+ₜ◌,
  option_beq_iff,
}
use pytitect.Prelude.Dict.{Dict, get, put, IsUnique, get-put, Selected}
use pytitect.Outbox.Types.{OutboxEnvelope, OutboxClaim, DeliveryResult, Stored, Floats, RetryPolicy}
use pytitect.Outbox.Store
use pytitect.Outbox.Store.{
  OutboxStore, is_eligible, held, valid, valid_item, settle, released, set_delivered, set_retried,
  set_failed, claim_locked, delivered, retry, failed,
}
use pytitect.Outbox.Claiming.{
  update, get-update, claims, marks, marks-IsUnique, chosen, chosen-Selected, chosen-IsUnique,
  claim_utc, claim_locked_lem,
}
use pytitect.Outbox.Moves.{is_finished}
use pytitect.Outbox.Validity.{IsValid}
use pytitect.Outbox.Dispatch.{
  in_memory, Counts, DispatchSummary, dispatch_claims, dispatch, on_store, on_store_ok,
}
use pytitect.Outbox.Loop.{Ready, IsReleased, Answers, dispatch_claims-Settles}

update-All :
    {V : Type 0} (c d : Dict String V) → IsUnique c → All (λ x. get x.0 (update c d) ≡ some x.1) c
unfolding update
update-All [] d u = tt
update-All ((k, v) ∷ c) d u = (
  ground (arith, get-update c (put k v d) k u.1, u.0, get-put d k k v, String_eq.beq_iff k k),
  update-All c (put k v d) u.1,
)

-- The item is under its own ID and is not finished.
abbrev pub Own : {P : Type 0} → String × Stored P → Type 0
Own x = (x.1.envelope.message_id ≡ x.0) × (is_finished x.1 ≡ false)

module _ {P : Type 0} (until : ℕ) (uuid : ℕ → String) where
  pub claims-distinct :
      (n : ℕ) (l : Dict String (Stored P)) (i : String)
      → get i l ≡ none
      → All Own l
      → All (λ (k : OutboxClaim P). k.envelope.message_id ≢ i) (claims until uuid n l)
  unfolding get
  claims-distinct n [] i absent own = tt
  claims-distinct n ((k, x) ∷ l) i absent own = (
    λ e. absurd (ground (arith, absent, own.0.0, e, String_eq.beq_iff k i)),
    claims-distinct (suc n) l i (ground (arith, absent)) own.1,
  )

  claims-Ready :
      (n : ℕ) (l : Dict String (Stored P)) (s : OutboxStore P)
      → IsUnique l
      → All Own l
      → All (λ x. get x.0 s.items ≡ some x.1) (marks until uuid n l)
      → Ready s (claims until uuid n l)
  unfolding valid
  claims-Ready n [] s u own there = tt
  claims-Ready n ((k, x) ∷ l) s u own there = (
    (
      held (uuid n) until x,
      rw (own.0.0, there.0)
          (ground (arith, option_beq_iff (some (uuid n)) (some (uuid n)), own.0.1)),
    ),
    rw own.0.0 (claims-distinct (suc n) l k u.0 own.1),
    claims-Ready (suc n) l s u.1 own.1 there.1,
  )

  pub length-claims :
      (n : ℕ) (l : Dict String (Stored P)) → length (claims until uuid n l) ≡ length l
  length-claims n [] = refl
  length-claims n ((k, x) ∷ l) = omega (arith, length-claims (suc n) l)

  -- What holds of the messages of the claims holds of the chosen ones.
  pub claims-All :
      (Q : String → Type 0) (n : ℕ) (l : Dict String (Stored P))
      → All Own l
      → All (λ (c : OutboxClaim P). Q c.envelope.message_id) (claims until uuid n l)
      → All (λ x. Q x.0) l
  claims-All Q n [] own h = tt
  claims-All Q n ((k, x) ∷ l) own h = (rw (← own.0.0) h.0, claims-All Q (suc n) l own.1 h.1)

module _ {P : Type 0} where
  pub chosen-Own :
      (now : ℕ) (s : OutboxStore P) (l : Dict String (Stored P))
      → IsValid s
      → All (Selected (is_eligible now) s.items) l
      → All Own l
  chosen-Own now s [] v h = tt
  chosen-Own now s ((k, x) ∷ l) v h = (
    (
      ground (arith, rw h.0.0 at (v.sound k), String_eq.beq_iff x.envelope.message_id k),
      ground (arith, h.0.1),
    ),
    chosen-Own now s l v h.1,
  )

  pub claim_ok :
      (uuid : ℕ → String) (t : ℕ) (s : OutboxStore P) (limit : ℕ) (ttl : Timedelta)
      → (limit == 0) ≡ false
      → not_positive ttl ≡ false
      → Store.claim uuid (utc t) limit ttl s ≡ (
        ok (claims (t +ₜ ttl) uuid 0 (chosen t limit s)),
        record s { items = update (marks (t +ₜ ttl) uuid 0 (chosen t limit s)) s.items },
      )
  claim_ok uuid t s limit ttl some_ positive =
      rw (claim_utc, some_, positive) (claim_locked_lem uuid t limit (t +ₜ ttl) s)

module _ {P W F : Type 0} (floats : Floats F) (policy : RetryPolicy F) (uuid : ℕ → String) (t : ℕ)
    (handler : OutboxEnvelope P → Action W DeliveryResult) where
  -- The last line of `dispatch`.
  summarise : List (OutboxClaim P) → Counts → Action (OutboxStore P × W) DispatchSummary
  summarise cs counts = pure (record {
    claimed = length cs;
    delivered = counts.delivered;
    retried = counts.retried;
    failed = counts.failed;
  })

  -- A round on a well-formed in-memory store, with a positive limit and duration and a UTC clock, and
  -- with a handler that returns, returns too: it claims the first messages that are eligible, up to
  -- the limit, counts each of them as delivered, retried or failed, and leaves none of them claimed.
  pub dispatch_settles :
      (s : OutboxStore P) (w : W) (limit : ℕ) (ttl : Timedelta)
      → IsValid s
      → 0 < limit
      → not_positive ttl ≡ false
      → Answers floats policy uuid t handler
      → (summary : DispatchSummary) × (s' : OutboxStore P) × (w' : W) × (dispatch floats policy
            (in_memory uuid)
            (utc t)
            handler
            ttl
            limit
            (s, w)
          ≡ (ok summary, (s', w')))
        × (summary.claimed ≡ length (chosen t limit s))
        × (summary.delivered + summary.retried + summary.failed ≡ summary.claimed)
        × All (λ x. IsReleased (get x.0 s'.items)) (chosen t limit s)
  unfolding dispatch summarise
  dispatch_settles s w limit ttl v positive_limit positive answers =
      let l = chosen t limit s in
      let m = marks (t +ₜ ttl) uuid 0 l in
      let cs = claims (t +ₜ ttl) uuid 0 l in
      let s₁ = record s { items = update m s.items } in
      let own = chosen-Own t s l v (chosen-Selected t limit s v.unique) in
      let zero_counts : Counts = record { delivered = 0; retried = 0; failed = 0 } in
      let unique = chosen-IsUnique t limit s v.unique in
      let ready =
        claims-Ready (t +ₜ ttl) uuid 0 l s₁ unique own
          (update-All m s.items (marks-IsUnique (t +ₜ ttl) uuid 0 l unique)) in
      let done =
        dispatch_claims-Settles floats policy uuid t handler cs zero_counts s₁ w answers ready in
      (
        record {
          claimed = length cs;
          delivered = done.counts'.delivered;
          retried = done.counts'.retried;
          failed = done.counts'.failed;
        },
        done.s',
        done.w',
        bind_ok (on_store ((in_memory uuid).claim (utc t) limit ttl))
              (λ claims.
                dispatch_claims floats policy (in_memory uuid) (utc t) handler claims zero_counts
                >>= summarise claims)
              (on_store_ok ((in_memory uuid).claim (utc t) limit ttl) w
                (claim_ok uuid t s limit ttl (ground (arith, positive_limit)) positive))
            ∙ bind_ok
                (dispatch_claims floats policy (in_memory uuid) (utc t) handler cs zero_counts)
                (summarise cs) done.runs,
        length-claims (t +ₜ ttl) uuid 0 l,
        omega (arith, done.counted),
        claims-All (t +ₜ ttl) uuid (λ i. IsReleased (get i done.s'.items)) 0 l own done.freed,
      )
