-- ===== src/Maintenance/Effect.antt =====
-- What a purge leaves: the selected pairs are gone, as many as it reports, and nothing else is.
use pytitect.Prelude.{
  ℕ, suc, ◌+◌, ◌≤◌, Bool, true, false, ◌≡◌, ◌≢◌, refl, none, some, [], ◌∷◌, Eq, if◌then◌else◌,
  length, All, arith, ok,
}
use pytitect.Prelude.Dict.{
  Dict, get, pop, pop_all, keys, IsUnique, Selected, get-pop, get-pop_all, holds_at, Selected-elem,
  pop-IsUnique, pop_all-IsUnique, length-pop_all-le,
}
use pytitect.Maintenance.{select, remaining, report}
use pytitect.Maintenance.Selection.{select-All, select-IsUnique}

-- A summary is never refused, and counts what was selected and, but for a dry run, removed.
pub report-ok :
    (dry_run : Bool) (n : ℕ)
    → report dry_run n
      ≡ ok (record { selected = n; affected = if dry_run then 0 else n; dry_run = dry_run })
unfolding report
report-ok dry_run n = ground arith

module _ {ℓ κ} {K : Type ℓ} {V : Type κ} ⦃e : Eq K⦄ where
  pop_absent : (d : Dict K V) (k : K) → get k d ≡ none → length (pop k d) ≡ length d
  unfolding get pop
  pop_absent [] k h = refl
  pop_absent ((i, w) ∷ d) k h = ground (arith, pop_absent d k)

  length-pop :
      (d : Dict K V) (k : K) → IsUnique d → get k d ≢ none → suc (length (pop k d)) ≡ length d
  unfolding get pop
  length-pop [] k u h = absurd (h refl)
  length-pop ((i, w) ∷ d) k u h = ground (arith, length-pop d k, pop_absent d k, e.beq_iff i k)

  -- Every selected pair is in the dictionary.
  Present : Dict K V → Dict K V → Type κ
  Present d c = All (λ x. (v : V) × (get x.0 d ≡ some v)) c

  Present-pop : (d c : Dict K V) (k : K) → get k c ≡ none → Present d c → Present (pop k d) c
  unfolding Present get
  Present-pop d [] k h p = tt
  Present-pop d ((i, w) ∷ c) k h p = (
    (p.0.0, ground (arith, get-pop d k i, e.beq_iff k i, e.beq_iff i k)),
    Present-pop d c k (ground arith) p.1,
  )

  length-pop_all :
      (c d : Dict K V)
      → IsUnique d
      → IsUnique c
      → Present d c
      → length (pop_all (keys c) d) + length c ≡ length d
  unfolding pop_all Present
  length-pop_all [] d u uc p = omega arith
  length-pop_all ((i, w) ∷ c) d u uc p = omega (
    arith,
    length-pop_all c (pop i d) (pop-IsUnique d i u) uc.1 (Present-pop d c i uc.0 p.1),
    length-pop d i u (λ n. cc (n, p.0.1)),
  )

  Selected-Present : (t : K × V → Bool) (d c : Dict K V) → All (Selected t d) c → Present d c
  unfolding Present
  Selected-Present t d [] h = tt
  Selected-Present t d ((i, w) ∷ c) h = ((w, h.0.0), Selected-Present t d c h.1)

  module _ (leq : K × V → K × V → Bool) (t : K × V → Bool) (n : ℕ) (d : Dict K V) where
    -- As many pairs go as are selected.
    pub length-remaining :
        IsUnique d
        → length (remaining false (select leq t n d) d) + length (select leq t n d) ≡ length d
    unfolding remaining
    length-remaining u =
        let sel = select leq t n d in
        length-pop_all sel d u (select-IsUnique leq t n d u)
          (Selected-Present t d sel (select-All leq t n d u))

    -- A key whose pair fails the test keeps its value.
    pub remaining_kept :
        (b : Bool) (j : K)
        → IsUnique d
        → holds_at t j (get j d) ≡ false
        → get j (remaining b (select leq t n d) d) ≡ get j d
    unfolding remaining
    remaining_kept b j u h =
        let sel = select leq t n d in
        ground (arith, get-pop_all (keys sel) d j, Selected-elem t d sel j (select-All leq t n d u))

    -- A key has its value still, or the pair passed the test and is gone.
    pub remaining_or_gone :
        (b : Bool) (j : K) (v : V)
        → get j (remaining b (select leq t n d) d) ≡ some v
        → get j d ≡ some v
    unfolding remaining
    remaining_or_gone b j v h =
        let sel = select leq t n d in ground (arith, get-pop_all (keys sel) d j)

    pub remaining-IsUnique : (b : Bool) → IsUnique d → IsUnique (remaining b (select leq t n d) d)
    unfolding remaining
    remaining-IsUnique true u = u
    remaining-IsUnique false u = pop_all-IsUnique (keys (select leq t n d)) d u

    pub length-remaining-le : (b : Bool) → length (remaining b (select leq t n d) d) ≤ length d
    unfolding remaining
    length-remaining-le true = omega arith
    length-remaining-le false = length-pop_all-le (keys (select leq t n d)) d
