-- ===== src/Outbox/Loop.antt =====
-- The loop of `OneRoundDispatcher.dispatch`, src/pytitect/outbox.py, over claims that are valid.
use pytitect.Prelude.{
  ℕ, ◌+◌, String, true, ◌≡◌, ◌≢◌, refl, sym, ◌∙◌, Option, none, some, List, [], ◌∷◌, length, ℕ_eq,
  String_eq, arith, All, bind_ok, ◌>>=◌, Action, Result, ok, utc,
}
use pytitect.Prelude.Dict.{get, get-put}
use pytitect.Outbox.Types.{OutboxEnvelope, OutboxClaim, DeliveryResult, Stored, Floats, RetryPolicy}
use pytitect.Outbox.Store.{OutboxStore, valid, released}
use pytitect.Outbox.Dispatch.{in_memory, Counts, conclude, dispatch_claims, on_world, on_world_ok}
use pytitect.Outbox.Conclude.{is_reasoned, total, settled, conclude-Concluded}

-- Each claim is valid, and no two are of one message.
abbrev pub Ready : {P : Type 0} → OutboxStore P → List (OutboxClaim P) → Type 0
Ready s [] = Unit
Ready s (c ∷ cs) =
    ((item : _) × (valid s c ≡ some item))
    × All (λ k. k.envelope.message_id ≢ c.envelope.message_id) cs
    × Ready s cs

-- The message is there and is not claimed.
abbrev pub IsReleased : {P : Type 0} → Option (Stored P) → Type 0
IsReleased o = (x : _) × (o ≡ some x) × (x.claim_id ≡ none)

module _ {P : Type 0} where
  get-settled :
      (change : Stored P → Stored P) (c : OutboxClaim P) (item : Stored P) (s : OutboxStore P)
      (i : String)
      → i ≢ c.envelope.message_id
      → get i (settled change c item s).items ≡ get i s.items
  get-settled change c item s i h = ground (
    arith,
    get-put s.items c.envelope.message_id i (released (change item)),
    String_eq.beq_iff c.envelope.message_id i,
    h,
  )

  settled-Ready :
      (change : Stored P → Stored P) (c : OutboxClaim P) (item : Stored P) (s : OutboxStore P)
      (cs : List (OutboxClaim P))
      → All (λ k. k.envelope.message_id ≢ c.envelope.message_id) cs
      → Ready s cs
      → Ready (settled change c item s) cs
  unfolding valid
  settled-Ready change c item s [] h r = tt
  settled-Ready change c item s (k ∷ cs) h r = (
    (r.0.0, rw (get-settled change c item s k.envelope.message_id h.0) r.0.1),
    r.1,
    settled-Ready change c item s cs h.1 r.2,
  )

module _ {P W F : Type 0} (floats : Floats F) (policy : RetryPolicy F) (uuid : ℕ → String) (t : ℕ)
    (handler : OutboxEnvelope P → Action W DeliveryResult) where
  -- The handler returns, and gives a reason for what it reports to have failed.
  abbrev pub Answers : Type 0
  Answers =
      (e : OutboxEnvelope P) (w : W)
      → (r : DeliveryResult) × (w' : W) × (handler e w ≡ (ok r, w')) × (is_reasoned r ≡ true)

  -- The loop returns, counts all claims, releases their messages and leaves the others alone.
  pub record Settles (cs : List (OutboxClaim P)) (counts : Counts) (s : OutboxStore P)
      (r : Result Counts × (OutboxStore P × W)) : Type 0 where
    pub counts' : Counts
    pub s' : OutboxStore P
    pub w' : W
    pub runs : r ≡ (ok counts', (s', w'))
    pub counted : total counts' ≡ total counts + length cs
    pub freed : All (λ c. IsReleased (get c.envelope.message_id s'.items)) cs
    pub others :
        (i : String) → All (λ c. c.envelope.message_id ≢ i) cs → get i s'.items ≡ get i s.items

  pub dispatch_claims-Settles :
      (cs : List (OutboxClaim P)) (counts : Counts) (s : OutboxStore P) (w : W)
      → Answers
      → Ready s cs
      → Settles cs counts s
          (dispatch_claims floats policy (in_memory uuid) (utc t) handler cs counts (s, w))
  unfolding dispatch_claims
  dispatch_claims-Settles [] counts s w answers ready = record {
    counts' = counts;
    s' = s;
    w' = w;
    runs = refl;
    counted = omega arith;
    freed = tt;
    others = λ i h. refl;
  }
  dispatch_claims-Settles (c ∷ cs) counts s w answers ready =
      let (result, w₁, said, fine) = answers c.envelope w in
      let item = ready.0.0 in
      let (counts₁, change, done, one) =
        conclude-Concluded floats policy uuid t c counts item s w₁ ready.0.1 result fine in
      let rest =
        dispatch_claims-Settles cs counts₁ (settled change c item s) w₁ answers
          (settled-Ready change c item s cs ready.1 ready.2) in
      record {
        counts' = rest.counts';
        s' = rest.s';
        w' = rest.w';
        runs =
            bind_ok (on_world (handler c.envelope))
              (λ result.
                conclude floats policy (in_memory uuid) (utc t) c counts result >>= λ counts'.
                dispatch_claims floats policy (in_memory uuid) (utc t) handler cs counts')
              (on_world_ok (handler c.envelope) s said)
            ∙ bind_ok (conclude floats policy (in_memory uuid) (utc t) c counts result)
                (dispatch_claims floats policy (in_memory uuid) (utc t) handler cs) done
            ∙ rest.runs;
        counted = omega (arith, rest.counted, one);
        freed = (
          (
            released (change item),
            rest.others c.envelope.message_id ready.1
                ∙ ground (
                  arith,
                  get-put s.items c.envelope.message_id c.envelope.message_id
                      (released (change item)),
                  String_eq.beq_iff c.envelope.message_id c.envelope.message_id,
                ),
            refl,
          ),
          rest.freed,
        );
        others = λ i h. rest.others i h.1 ∙ get-settled change c item s i (λ e. h.0 (sym e));
      }
