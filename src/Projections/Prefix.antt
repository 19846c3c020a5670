-- ===== src/Projections/Prefix.antt =====
-- A page of the log, as the part of it that follows a prefix.
use pytitect.Prelude.{
  Bool-cases, inl, inr, ℕ, zero, suc, ◌+◌, ◌≤◌, ◌≡◌, refl, ap, List, [], ◌∷◌, ◌++◌, ltb, leb, false,
  arith, length, take, filter,
}
use pytitect.EventSourcing.Store.{StoredEvent, last_position}
use pytitect.EventSourcing.Pages.{Numbered, beyond, beyond_all}

module _ {P : Type 0} where
  -- The events that a page takes after `k` of them, and where it ends.
  take_page :
      (n q : ℕ) (xs : List (StoredEvent P))
      → Numbered q xs
      → (take n xs ≡ take (length (take n xs)) xs)
        × (last_position q (take n xs) ≡ q + length (take n xs))
        × (length (take n xs) ≤ length xs)
  take_page zero q xs h = (refl, omega arith, omega arith)
  take_page (suc n) q [] h = (refl, omega arith, omega arith)
  take_page (suc n) q (x ∷ xs) h =
      let (a, b, c) = take_page n (suc q) xs h.1 in
      (ap (λ l. x ∷ l) a, rw h.0 (omega (arith, b)), omega (arith, c))

  pub page_prefix :
      (n k q after : ℕ) (xs : List (StoredEvent P))
      → Numbered q xs
      → k ≤ length xs
      → after ≡ q + k
      → let page = take n (beyond after xs) in
        (take k xs ++ page ≡ take (k + length page) xs)
        × (last_position after page ≡ after + length page)
        × (k + length page ≤ length xs)
  page_prefix n zero q after xs h le e =
      let here : after ≡ q = omega (arith, e) in
      let all : beyond after xs ≡ xs = beyond_all after q xs (omega (arith, here)) h in
      let (a, b, c) = take_page n q xs h in
      rw all (
        let z : 0 + length (take n xs) ≡ length (take n xs) = omega arith in rw z a,
        rw here b,
        omega (arith, c),
      )
  page_prefix n (suc k) q after [] h le e = absurd (omega (arith, le))
  page_prefix n (suc k) q after (x ∷ xs) h le e =
      let past : ltb after x.global_position ≡ false = ground (arith, h.0, e) in
      let (a, b, c) = page_prefix n k (suc q) after xs h.1 (omega (arith, le)) (omega (arith, e)) in
      let shift : suc k + length (take n (beyond after xs))
          ≡ suc (k + length (take n (beyond after xs))) =
        omega arith in
      rw past (rw shift (ap (λ l. x ∷ l) a), b, omega (arith, c))

  -- What a prefix is does not change when the list grows.
  pub take-append_le :
      (k : ℕ) (xs ys : List (StoredEvent P)) → k ≤ length xs → take k (xs ++ ys) ≡ take k xs
  take-append_le zero xs ys le = refl
  take-append_le (suc k) [] ys le = absurd (omega (arith, le))
  take-append_le (suc k) (x ∷ xs) ys le =
      ap (λ l. x ∷ l) (take-append_le k xs ys (omega (arith, le)))

  -- What lies beyond a position that the log has reached is numbered from there.
  beyond-Numbered :
      (k q after : ℕ) (xs : List (StoredEvent P))
      → Numbered q xs
      → k ≤ length xs
      → after ≡ q + k
      → Numbered after (beyond after xs)
  beyond-Numbered zero q after xs h le e =
      let here : after ≡ q = omega (arith, e) in
      rw (beyond_all after q xs (omega (arith, here)) h, here) h
  beyond-Numbered (suc k) q after [] h le e = absurd (omega (arith, le))
  beyond-Numbered (suc k) q after (x ∷ xs) h le e =
      let past : ltb after x.global_position ≡ false = ground (arith, h.0, e) in
      rw past (beyond-Numbered k (suc q) after xs h.1 (omega (arith, le)) (omega (arith, e)))

  -- `tuple(event for event in events if event.global_position <= t)`
  abbrev pub up_to : ℕ → List (StoredEvent P) → List (StoredEvent P)
  up_to t xs = filter (λ (e : StoredEvent P). leb e.global_position t) xs

  up_to_none :
      (n t q : ℕ) (xs : List (StoredEvent P)) → Numbered q xs → t ≤ q → up_to t (take n xs) ≡ []
  up_to_none zero t q xs h le = refl
  up_to_none (suc n) t q [] h le = refl
  up_to_none (suc n) t q (x ∷ xs) h le = ground (arith, up_to_none n t (suc q) xs, h.0)

  up_to-take :
      (n t q : ℕ) (xs : List (StoredEvent P))
      → Numbered q xs
      → (m : ℕ) × (up_to t (take n xs) ≡ take m xs)
  up_to-take zero t q xs h = (0, refl)
  up_to-take (suc n) t q [] h = (0, refl)
  up_to-take (suc n) t q (x ∷ xs) h = elim (Bool-cases (leb x.global_position t)) [
    | inl in_ ↦ let (m, e) = up_to-take n t (suc q) xs h.1 in (suc m, rw in_ (ap (λ l. x ∷ l) e))
    | inr out ↦ (0, rw out (up_to_none n t (suc q) xs h.1 (ground (arith, out, h.0))))
  ]

  -- The same for the events of a page up to a position.
  pub page_up_to :
      (n t after : ℕ) (xs : List (StoredEvent P))
      → Numbered 0 xs
      → after ≤ length xs
      → let selected = up_to t (take n (beyond after xs)) in
        (take after xs ++ selected ≡ take (last_position after selected) xs)
        × (last_position after selected ≤ length xs)
  page_up_to n t after xs h le =
      let (m, e) =
        up_to-take n t after (beyond after xs)
          (beyond-Numbered after 0 after xs h le (omega arith)) in
      let (a, b, c) = page_prefix m after 0 after xs h le (omega arith) in rw e (rw b (a, c))
