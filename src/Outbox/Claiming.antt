-- ===== src/Outbox/Claiming.antt =====
-- What `claim` takes: the first eligible items, by the time from which they are available.
use pytitect.Prelude.{
  ℕ, zero, suc, ◌+◌, String, true, false, ◌≡◌, refl, sym, ◌∙◌, none, some, List, [], ◌∷◌, leb,
  if◌then◌else◌, length, filter, take, ◌==◌, ℕ_eq, String_eq, arith, inl, inr, ◌⊎◌, Bool-cases, All,
  All-take, ok, err, value_error, ◌≢◌, utc, Timedelta, not_positive, ◌+ₜ◌,
}
use pytitect.Prelude.Dict.{
  Dict, get, put, IsUnique, get-put, length-put, contains, put-IsUnique, Selected, filter-Selected,
}
use pytitect.Prelude.Sorting.{sorted, key_then}
use pytitect.Maintenance.Selection.{
  get-sorted, sorted-IsUnique, filter-IsUnique, take-IsUnique, All-get,
}
use pytitect.Outbox.Types.{OutboxClaim, Stored}
use pytitect.Outbox.Store.{
  OutboxStore, available_at, id_leb, is_eligible, held, claim_of, claim_items, claim_locked, claim,
}

-- `d.update(c)`
unfoldable pub update : {V : Type 0} → Dict String V → Dict String V → Dict String V
update [] d = d
update ((k, v) ∷ c) d = update c (put k v d)

pub get-update :
    {V : Type 0} (c d : Dict String V) (j : String)
    → IsUnique c
    → get j (update c d) ≡ elim (get j c) [ none ↦ get j d | some v ↦ some v ]
unfolding update get
get-update [] d j u = refl
get-update ((k, v) ∷ c) d j u =
    ground (arith, get-update c (put k v d) j u.1, get-put d k j v, String_eq.beq_iff k j)

update-IsUnique : {V : Type 0} (c d : Dict String V) → IsUnique d → IsUnique (update c d)
unfolding update
update-IsUnique [] d u = u
update-IsUnique ((k, v) ∷ c) d u = update-IsUnique c (put k v d) (put-IsUnique d k v u)

module _ {P : Type 0} where
  -- The items that a claim takes.
  abbrev pub chosen : ℕ → ℕ → OutboxStore P → Dict String (Stored P)
  chosen now limit s =
      take limit (filter (is_eligible now) (sorted (key_then available_at id_leb) s.items))

  module _ (claimed_until : ℕ) (uuid : ℕ → String) where
    -- The claims of the chosen items, from the n-th ID on, and the items as they are then held.
    abbrev pub claims : ℕ → Dict String (Stored P) → List (OutboxClaim P)
    claims n [] = []
    claims n ((i, item) ∷ rest) = claim_of (uuid n) claimed_until item ∷ claims (suc n) rest

    abbrev pub marks : ℕ → Dict String (Stored P) → Dict String (Stored P)
    marks n [] = []
    marks n ((i, item) ∷ rest) = (i, held (uuid n) claimed_until item) ∷ marks (suc n) rest

    module _ (now limit n : ℕ) (i : String) (item : Stored P) (l : List (String × Stored P))
        (items : Dict String (Stored P)) where
      claim_items_full :
          leb limit n ≡ true
          → claim_items now limit claimed_until uuid n ((i, item) ∷ l) items ≡ ([], items)
      unfolding claim_items
      claim_items_full h = rw h

      claim_items_skipped :
          leb limit n ≡ false
          → is_eligible now (i, item) ≡ false
          → claim_items now limit claimed_until uuid n ((i, item) ∷ l) items
            ≡ claim_items now limit claimed_until uuid n l items
      unfolding claim_items
      claim_items_skipped h e = rw (h, e)

      claim_items_taken :
          leb limit n ≡ false
          → is_eligible now (i, item) ≡ true
          → claim_items now limit claimed_until uuid n ((i, item) ∷ l) items ≡ (
              let r =
                claim_items now limit claimed_until uuid
                  (suc n)
                  l
                  (put i (held (uuid n) claimed_until item) items) in
              (claim_of (uuid n) claimed_until item ∷ r.0, r.1))
      unfolding claim_items
      claim_items_taken h e = rw (h, e)

    pub claim_items_lem :
        (now limit n m : ℕ) (l : List (String × Stored P)) (items : Dict String (Stored P))
        → n + m ≡ limit
        → claim_items now limit claimed_until uuid n l items ≡ (
          claims n (take m (filter (is_eligible now) l)),
          update (marks n (take m (filter (is_eligible now) l))) items,
        )
    unfolding update
    claim_items_lem now limit n zero [] items e = unfold claim_items in refl
    claim_items_lem now limit n (suc m) [] items e = unfold claim_items in refl
    claim_items_lem now limit n zero ((i, item) ∷ l) items e =
        claim_items_full now limit n i item l items (ground arith)
    claim_items_lem now limit n (suc m) ((i, item) ∷ l) items e =
        let below : leb limit n ≡ false = ground arith in
        elim (Bool-cases (is_eligible now (i, item))) [
          | inl yes_ ↦ rw yes_ (
              rw (claim_items_taken now limit n i item l items below yes_) (
                rw
                  (claim_items_lem now limit (suc n) m l
                    (put i (held (uuid n) claimed_until item) items) (omega arith))
                  refl))
          | inr no_ ↦ rw no_ (
              claim_items_skipped now limit n i item l items below no_
              ∙ claim_items_lem now limit n (suc m) l items e)
        ]

    -- A claimed item was chosen, and is held as before otherwise.
    get-marks :
        (n : ℕ) (l : Dict String (Stored P)) (j : String)
        → (get j l ≡ none) × (get j (marks n l) ≡ none)
          ⊎ ((item : Stored P) × (k : ℕ) × (get j l ≡ some item)
              × (get j (marks n l) ≡ some (held (uuid k) claimed_until item)))
    unfolding get
    get-marks n [] j = inl (refl, refl)
    get-marks n ((i, item) ∷ l) j = elim (Bool-cases (i == j)) [
      | inl e ↦ rw e (inr (item, n, refl, refl))
      | inr e ↦ rw e (get-marks (suc n) l j)
    ]

  pub chosen-Selected :
      (now limit : ℕ) (s : OutboxStore P)
      → IsUnique s.items
      → All (Selected (is_eligible now) s.items) (chosen now limit s)
  chosen-Selected now limit s u =
      let leq = key_then available_at id_leb in
      let l = sorted leq s.items in
      All-take (Selected (is_eligible now) s.items) limit (filter (is_eligible now) l) (
        filter-Selected (is_eligible now) s.items l (sorted-IsUnique leq s.items u)
          (λ k v h. sym (get-sorted leq s.items k u) ∙ h))

  pub claim_locked_lem :
      (uuid : ℕ → String) (now limit until : ℕ) (s : OutboxStore P)
      → claim_locked uuid now limit until s ≡ (
        ok (claims until uuid 0 (chosen now limit s)),
        record s { items = update (marks until uuid 0 (chosen now limit s)) s.items },
      )
  unfolding claim_locked
  claim_locked_lem uuid now limit until s =
      rw
        (claim_items_lem until uuid now limit 0 limit
          (sorted (key_then available_at id_leb) s.items) s.items (omega arith))
        refl

  pub chosen-IsUnique :
      (now limit : ℕ) (s : OutboxStore P) → IsUnique s.items → IsUnique (chosen now limit s)
  chosen-IsUnique now limit s u =
      let leq = key_then available_at id_leb in
      take-IsUnique limit (filter (is_eligible now) (sorted leq s.items))
        (filter-IsUnique (is_eligible now) (sorted leq s.items) (sorted-IsUnique leq s.items u))

  pub marks-IsUnique :
      (until : ℕ) (uuid : ℕ → String) (n : ℕ) (l : Dict String (Stored P))
      → IsUnique l
      → IsUnique (marks until uuid n l)
  marks-IsUnique until uuid n [] u = tt
  marks-IsUnique until uuid n ((i, item) ∷ l) u = (
    elim (get-marks until uuid (suc n) l i) [
      | inl absent ↦ absent.1
      | inr (x, k, e, f) ↦ absurd (cc (e, u.0))
    ],
    marks-IsUnique until uuid (suc n) l u.1,
  )

  pub claim-IsUnique :
      (uuid : ℕ → String) (now limit until : ℕ) (s : OutboxStore P)
      → IsUnique s.items
      → IsUnique (claim_locked uuid now limit until s).1.items
  claim-IsUnique uuid now limit until s u =
      rw claim_locked_lem (update-IsUnique (marks until uuid 0 (chosen now limit s)) s.items u)

  -- The effect of `claim` on one item: none, or the item was eligible and is held.
  pub claim-cases :
      (uuid : ℕ → String) (now limit until : ℕ) (s : OutboxStore P) (j : String)
      → IsUnique s.items
      → (get j (claim_locked uuid now limit until s).1.items ≡ get j s.items)
        ⊎ ((item : Stored P) × (k : ℕ) × (get j s.items ≡ some item)
            × (is_eligible now (j, item) ≡ true)
            × (get j (claim_locked uuid now limit until s).1.items
                ≡ some (held (uuid k) until item)))
  claim-cases uuid now limit until s j u =
      let c = chosen now limit s in
      let m = marks until uuid 0 c in
      let after : get j (claim_locked uuid now limit until s).1.items
          ≡ elim (get j m) [ none ↦ get j s.items | some v ↦ some v ] =
        rw claim_locked_lem (
          get-update m s.items j (marks-IsUnique until uuid 0 c (chosen-IsUnique now limit s u))) in
      elim (get-marks until uuid 0 c j) [
        | inl absent ↦ inl (rw absent.1 at after)
        | inr (item, k, e, f) ↦
            let picked =
              All-get (Selected (is_eligible now) s.items) c j item (chosen-Selected now limit s u)
                e in
            inr (item, k, picked.0, picked.1, (rw f at after))
      ]

  -- `claim` at a UTC instant: its two tests, and then the part under the lock.
  pub claim_utc :
      (uuid : ℕ → String) (t limit : ℕ) (ttl : Timedelta) (s : OutboxStore P)
      → claim uuid (utc t) limit ttl s ≡ (
          if limit == 0
          then (err value_error, s)
          else if not_positive ttl
          then (err value_error, s)
          else claim_locked uuid t limit (t +ₜ ttl) s)
  unfolding claim
  claim_utc uuid t limit ttl s = elim (Bool-cases (limit == 0)) [
    | inl zero_ ↦ rw zero_ refl
    | inr some_ ↦
        rw some_
          (elim (Bool-cases (not_positive ttl)) [ inl bad ↦ rw bad refl | inr fine ↦ rw fine refl ])
  ]

  length-update :
      (c d : Dict String (Stored P))
      → ((j : String) → get j c ≢ none → contains j d ≡ true)
      → length (update c d) ≡ length d
  unfolding update get
  length-update [] d h = refl
  length-update ((k, v) ∷ c) d h =
      let here : contains k d ≡ true =
        h k (λ e. absurd (ground (arith, String_eq.beq_iff k k, e))) in
      length-update c (put k v d)
        (λ j n. ground (arith, get-put d k j v, h j (λ e. n (ground (arith, e)))))
      ∙ ground (arith, length-put d k v, here)

  -- A claim changes no number of items.
  pub length-claim :
      (uuid : ℕ → String) (now limit until : ℕ) (s : OutboxStore P)
      → IsUnique s.items
      → length (claim_locked uuid now limit until s).1.items ≡ length s.items
  length-claim uuid now limit until s u =
      let c = chosen now limit s in
      rw claim_locked_lem (
        length-update (marks until uuid 0 c) s.items (λ j n. elim (get-marks until uuid 0 c j) [
          | inl absent ↦ absurd (n absent.1)
          | inr (item, k, e, f) ↦
              let picked =
                All-get (Selected (is_eligible now) s.items) c j item
                  (chosen-Selected now limit s u) e in
              rw picked.0 refl
        ]))

  pub capacity-claim :
      (uuid : ℕ → String) (now limit until : ℕ) (s : OutboxStore P)
      → (claim_locked uuid now limit until s).1.capacity ≡ s.capacity
  unfolding claim_locked
  capacity-claim uuid now limit until s = refl
