-- ===== src/Maintenance/Oldest.antt =====
-- Which pairs a purge takes: as many as there are, up to a batch, and the oldest first.
use mathlib.Core.Path.{subst}
use Prim.Native.Nat.{min}
use pytitect.Prelude.{
  ℕ, ◌≤◌, Bool, true, false, ◌≡◌, ◌⊎◌, refl, none, some, [], ◌∷◌, Eq, ◌==◌, inl, inr, Bool-cases,
  leb, length, length-take, filter, All, arith,
}
use pytitect.Prelude.Dict.{Dict, get, keys, elem, IsUnique, Selected, get-pop_all, Selected-elem}
use pytitect.Prelude.Sorting.{key_then, sorted, length-sorted}
use pytitect.Maintenance.{select, remaining}
use pytitect.Maintenance.Selection.{select-All, select_oldest}

module _ {ℓ κ} {K : Type ℓ} {V : Type κ} ⦃e : Eq K⦄ where
  pub length-select :
      (leq : K × V → K × V → Bool) (p : K × V → Bool) (n : ℕ) (d : Dict K V)
      → length (select leq p n d) ≡ min n (length (filter p d))
  unfolding select
  length-select leq p n d =
      rw (length-take n (sorted leq (filter p d)), length-sorted leq (filter p d)) refl

  -- A pair of the dictionary whose key is selected is a selected pair.
  elem-All {ι} :
      (Q : K × V → Type ι) (p : K × V → Bool) (d c : Dict K V) (k : K) (y : V)
      → All (Selected p d) c
      → All Q c
      → elem k (keys c) ≡ true
      → get k d ≡ some y
      → Q (k, y)
  elem-All Q p d [] k y s q m h = absurd (cc)
  elem-All Q p d ((i, w) ∷ c) k y s q m h = elim (Bool-cases (i == k)) [
    | inl same ↦ subst Q (ground (arith, e.beq_iff i k, s.0.0)) q.0
    | inr differs ↦ elem-All Q p d c k y s.1 q.1 (ground arith) h
  ]

  module _ (key : K × V → ℕ) (tie : K × V → K × V → Bool) (p : K × V → Bool) (n : ℕ) (b : Bool)
      (d : Dict K V) (u : IsUnique d) where
    -- Of a selected pair and one that is not selected, the selected one is no later.
    selected_oldest :
        (cutoff : ℕ) (same : (x : K × V) → p x ≡ leb (key x) cutoff) (j k : K) (x y : V)
        → get j d ≡ some x
        → get k d ≡ some y
        → elem j (keys (select (key_then key tie) p n d)) ≡ false
        → elem k (keys (select (key_then key tie) p n d)) ≡ true
        → key (k, y) ≤ key (j, x)
    selected_oldest cutoff same j k x y hx hy out taken =
        let sel = select (key_then key tie) p n d in
        let all = select-All (key_then key tie) p n d u in
        elim (Bool-cases (p (j, x))) [
          | inl passed ↦
              elem-All (λ z. key z ≤ key (j, x)) p d sel k y all
                (select_oldest key tie p n d j x u hx passed out) taken hy
          | inr early ↦
              ground (arith, same (j, x), same (k, y), hy, Selected-elem p d sel k all taken)
        ]

    -- A pair stays as it is, or it passed the test and its key is gone.
    pub kept_or_gone :
        (j : K) (x : V)
        → get j d ≡ some x
        → let d' = remaining b (select (key_then key tie) p n d) d in
          (get j d' ≡ some x) ⊎ (get j d' ≡ none) × (p (j, x) ≡ true)
    unfolding remaining
    kept_or_gone j x h =
        let sel = select (key_then key tie) p n d in
        ground (
          arith,
          get-pop_all (keys sel) d j,
          Selected-elem p d sel j (select-All (key_then key tie) p n d u),
          h,
        )

    -- Of two pairs, of which one is gone and the other is there, the one that is gone is no later.
    pub gone_oldest :
        (cutoff : ℕ) (same : (x : K × V) → p x ≡ leb (key x) cutoff) (j k : K) (x y : V)
        → get j d ≡ some x
        → get k d ≡ some y
        → let d' = remaining b (select (key_then key tie) p n d) d in
          (get j d' ≡ none) ⊎ (get k d' ≡ some y) ⊎ (key (k, y) ≤ key (j, x))
    unfolding remaining
    gone_oldest cutoff same j k x y hx hy =
        let sel = select (key_then key tie) p n d in
        elim (Bool-cases b) [
          | inl dry ↦ inr (inl (rw dry hy))
          | inr wet ↦ elim (Bool-cases (elem j (keys sel))) [
            | inl first ↦ inl (rw (wet, get-pop_all (keys sel) d j, first) refl)
            | inr out ↦ elim (Bool-cases (elem k (keys sel))) [
              | inr left ↦ inr (inl (rw (wet, get-pop_all (keys sel) d k, left) hy))
              | inl taken ↦ inr (inr (selected_oldest cutoff same j k x y hx hy out taken))
            ]
          ]
        ]
