-- ===== src/Maintenance/Selection.antt =====
-- What a purge selects: pairs that pass its test, at most a batch, oldest first.
use mathlib.Core.Path.{subst}
use pytitect.Prelude.{
  ℕ, zero, suc, ◌≤◌, Bool, true, false, ◌≡◌, refl, inl, inr, none, some, [], ◌∷◌, Eq, ◌==◌,
  if◌then◌else◌, ◌∙◌, Bool-cases, length, take, filter, All, All-take, length-take-le, arith,
}
use pytitect.Prelude.Dict.{Dict, get, keys, elem, IsUnique, Selected, select-Selected}
use pytitect.Prelude.Sorting.{sorted, insert, sorted-All, IsSortedBy, key_then, sorted-IsSortedBy}
use pytitect.Maintenance.{select}

module _ {ℓ κ} {K : Type ℓ} {V : Type κ} ⦃e : Eq K⦄ where
  module _ (leq : K × V → K × V → Bool) (p : K × V → Bool) (n : ℕ) (d : Dict K V) where
    pub length-select-le : length (select leq p n d) ≤ n
    unfolding select
    length-select-le = length-take-le n (sorted leq (filter p d))

    pub select-All : IsUnique d → All (Selected p d) (select leq p n d)
    unfolding select
    select-All u =
        All-take (Selected p d) n (sorted leq (filter p d))
          (sorted-All leq (Selected p d) (filter p d) (select-Selected p d u))

  get-insert :
      (leq : K × V → K × V → Bool) (i : K) (w : V) (c : Dict K V) (j : K)
      → get i c ≡ none
      → get j (insert leq (i, w) c) ≡ (if i == j then some w else get j c)
  unfolding insert get
  get-insert leq i w [] j h = refl
  get-insert leq i w ((k, x) ∷ c) j h =
      ground (arith, get-insert leq i w c j, e.beq_iff k i, e.beq_iff k j, e.beq_iff i j)

  insert-IsUnique :
      (leq : K × V → K × V → Bool) (i : K) (w : V) (c : Dict K V)
      → get i c ≡ none
      → IsUnique c
      → IsUnique (insert leq (i, w) c)
  unfolding insert get
  insert-IsUnique leq i w [] h u = (refl, tt)
  insert-IsUnique leq i w ((k, x) ∷ c) h u =
      ground
        (arith, insert-IsUnique leq i w c, get-insert leq i w c k, e.beq_iff k i, e.beq_iff i k)

  pub get-sorted :
      (leq : K × V → K × V → Bool) (c : Dict K V) (j : K)
      → IsUnique c
      → get j (sorted leq c) ≡ get j c
  unfolding sorted get
  get-sorted leq [] j u = refl
  get-sorted leq ((i, w) ∷ c) j u =
      ground (arith, get-insert leq i w (sorted leq c) j, get-sorted leq c i, get-sorted leq c j)

  pub sorted-IsUnique :
      (leq : K × V → K × V → Bool) (c : Dict K V) → IsUnique c → IsUnique (sorted leq c)
  unfolding sorted
  sorted-IsUnique leq [] u = tt
  sorted-IsUnique leq ((i, w) ∷ c) u =
      insert-IsUnique leq i w (sorted leq c) (ground (arith, get-sorted leq c i))
        (sorted-IsUnique leq c u.1)

  pub get-filter :
      (p : K × V → Bool) (c : Dict K V) (j : K) (v : V)
      → IsUnique c
      → get j c ≡ some v
      → p (j, v) ≡ true
      → get j (filter p c) ≡ some v
  unfolding get
  get-filter p [] j v u h t = h
  get-filter p ((i, w) ∷ c) j v u h t = ground (arith, get-filter p c j v, e.beq_iff i j)

  get-filter-none :
      (p : K × V → Bool) (c : Dict K V) (j : K) → get j c ≡ none → get j (filter p c) ≡ none
  unfolding get
  get-filter-none p [] j h = refl
  get-filter-none p ((i, w) ∷ c) j h = ground (arith, get-filter-none p c j)

  pub filter-IsUnique : (p : K × V → Bool) (c : Dict K V) → IsUnique c → IsUnique (filter p c)
  filter-IsUnique p [] u = tt
  filter-IsUnique p ((i, w) ∷ c) u = ground (arith, filter-IsUnique p c, get-filter-none p c i)

  get-take-none : (n : ℕ) (c : Dict K V) (j : K) → get j c ≡ none → get j (take n c) ≡ none
  unfolding get
  get-take-none zero c j h = refl
  get-take-none (suc n) [] j h = refl
  get-take-none (suc n) ((i, w) ∷ c) j h = ground (arith, get-take-none n c j)

  pub take-IsUnique : (n : ℕ) (c : Dict K V) → IsUnique c → IsUnique (take n c)
  take-IsUnique zero c u = tt
  take-IsUnique (suc n) [] u = tt
  take-IsUnique (suc n) ((i, w) ∷ c) u = (get-take-none n c i u.0, take-IsUnique n c u.1)

  pub select-IsUnique :
      (leq : K × V → K × V → Bool) (p : K × V → Bool) (n : ℕ) (d : Dict K V)
      → IsUnique d
      → IsUnique (select leq p n d)
  unfolding select
  select-IsUnique leq p n d u =
      take-IsUnique n (sorted leq (filter p d))
        (sorted-IsUnique leq (filter p d) (filter-IsUnique p d u))

  pub All-get {ι} :
      (P : K × V → Type ι) (c : Dict K V) (j : K) (v : V) → All P c → get j c ≡ some v → P (j, v)
  unfolding get
  All-get P [] j v h q = absurd (cc)
  All-get P ((i, w) ∷ c) j v h q = elim (Bool-cases (i == j)) [
    | inl same ↦ subst P (ground (arith, e.beq_iff i j)) h.0
    | inr differs ↦ All-get P c j v h.1 (ground arith)
  ]

  pub take_oldest :
      (key : K × V → ℕ) (n : ℕ) (c : Dict K V) (j : K) (v : V)
      → IsSortedBy key c
      → get j c ≡ some v
      → elem j (keys (take n c)) ≡ false
      → All (λ x. key x ≤ key (j, v)) (take n c)
  unfolding get
  take_oldest key zero c j v s q out = tt
  take_oldest key (suc n) [] j v s q out = tt
  take_oldest key (suc n) ((i, w) ∷ c) j v s q out =
      let later : get j c ≡ some v = ground arith in
      (
        All-get (λ x. key (i, w) ≤ key x) c j v s.0 later,
        take_oldest key n c j v s.1 later (ground arith),
      )

  -- A pair that passes the test and is not selected is at least as late as every selected one.
  pub select_oldest :
      (key : K × V → ℕ) (tie : K × V → K × V → Bool) (p : K × V → Bool) (n : ℕ) (d : Dict K V)
      (j : K) (v : V)
      → IsUnique d
      → get j d ≡ some v
      → p (j, v) ≡ true
      → elem j (keys (select (key_then key tie) p n d)) ≡ false
      → All (λ x. key x ≤ key (j, v)) (select (key_then key tie) p n d)
  unfolding select
  select_oldest key tie p n d j v u q t out =
      take_oldest key n (sorted (key_then key tie) (filter p d)) j v
        (sorted-IsSortedBy key tie (filter p d))
        (get-sorted (key_then key tie) (filter p d) j (filter-IsUnique p d u)
          ∙ get-filter p d j v u q t)
        out
