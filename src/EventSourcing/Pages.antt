-- ===== src/EventSourcing/Pages.antt =====
-- Pages of the log: they neither skip nor repeat an event.
use pytitect.Prelude.{
  length-append, length-take, length-take-le, ℕ, zero, suc, ◌≤◌, true, false, ◌≡◌, ◌↔◌, refl, sym,
  ap, List, [], ◌∷◌, ◌++◌, ltb, leb, arith, length, take, filter, ok, inl, inr, Bool-cases,
}
use mathlib.Core.Path.{subst}
use pytitect.EventSourcing.Store.{
  StoredEvent, EventStore, EventPage, last_position, read_all, bad_limit,
}

module _ {P : Type 0} where
  -- The positions follow one another, from the one after the given.
  abbrev pub Numbered : ℕ → List (StoredEvent P) → Type 0
  Numbered p [] = Unit
  Numbered p (x ∷ xs) = (x.global_position ≡ suc p) × Numbered (suc p) xs

  abbrev pub beyond : ℕ → List (StoredEvent P) → List (StoredEvent P)
  beyond after xs = filter (λ (e : StoredEvent P). ltb after e.global_position) xs

  pub beyond_all :
      (after p : ℕ) (xs : List (StoredEvent P)) → after ≤ p → Numbered p xs → beyond after xs ≡ xs
  beyond_all after p [] h n = refl
  beyond_all after p (x ∷ xs) h n = ground (arith, beyond_all after (suc p) xs, n)

  last_position-take-le :
      (limit p q : ℕ) (xs : List (StoredEvent P))
      → p ≤ q
      → Numbered q xs
      → p ≤ last_position p (take limit xs)
  last_position-take-le zero p q xs h n = omega arith
  last_position-take-le (suc limit) p q [] h n = omega arith
  last_position-take-le (suc limit) p q (x ∷ xs) h n = omega (
    arith,
    last_position-take-le limit x.global_position (suc q) xs (ground (arith, n)) n.1,
    n.0,
    h,
  )

  page_all :
      (limit after p : ℕ) (xs : List (StoredEvent P))
      → after ≤ p
      → Numbered p xs
      → take limit xs ++ beyond (last_position after (take limit xs)) xs ≡ xs
  page_all zero after p xs h n = beyond_all after p xs h n
  page_all (suc limit) after p [] h n = refl
  page_all (suc limit) after p (x ∷ xs) h n = ground (
    arith,
    page_all limit x.global_position (suc p) xs,
    last_position-take-le limit x.global_position (suc p) xs,
    n,
  )

  last_position-beyond-le :
      (limit after p : ℕ) (xs : List (StoredEvent P))
      → Numbered p xs
      → after ≤ last_position after (take limit (beyond after xs))
  last_position-beyond-le zero after p [] n = omega arith
  last_position-beyond-le (suc limit) after p [] n = omega arith
  last_position-beyond-le limit after p (x ∷ xs) n =
      elim (Bool-cases (ltb after x.global_position)) [
        | inr before ↦ rw before (last_position-beyond-le limit after (suc p) xs n.1)
        | inl later ↦
            let low : after ≤ p = ground (arith, n.0, later) in
            rw (beyond_all after p (x ∷ xs) low n)
              (last_position-take-le limit after p (x ∷ xs) low n)
      ]

  page_beyond :
      (limit after p : ℕ) (xs : List (StoredEvent P))
      → Numbered p xs
      → take limit (beyond after xs)
          ++ beyond (last_position after (take limit (beyond after xs))) xs
        ≡ beyond after xs
  page_beyond zero after p [] n = refl
  page_beyond (suc limit) after p [] n = refl
  page_beyond limit after p (x ∷ xs) n = elim (Bool-cases (ltb after x.global_position)) [
    | inl later ↦
        let low : after ≤ p = ground (arith, n.0, later) in
        subst (λ l. take limit l ++ beyond (last_position after (take limit l)) (x ∷ xs) ≡ l)
          (sym (beyond_all after p (x ∷ xs) low n)) (page_all limit after p (x ∷ xs) low n)
    | inr before ↦
        let past : ltb (last_position after (take limit (beyond after xs))) x.global_position
            ≡ false =
          ground (arith, last_position-beyond-le limit after (suc p) xs n.1, before) in
        let skipped : beyond after (x ∷ xs) ≡ beyond after xs = rw before refl in
        subst (λ l. take limit l ++ beyond (last_position after (take limit l)) (x ∷ xs) ≡ l)
          (sym skipped) (rw past (page_beyond limit after (suc p) xs n.1))
  ]

  complete_iff :
      (limit : ℕ) (available rest : List (StoredEvent P))
      → take limit available ++ rest ≡ available
      → (leb (length available) limit ≡ true) ↔ (rest ≡ [])
  complete_iff limit available rest h = ground (
    arith,
    ap (λ (l : List (StoredEvent P)). length l) h,
    length-append (take limit available) rest,
    length-take limit available,
  )

  -- On a log whose positions follow one another from 1, `read_all` with a limit in range returns a page
  -- of at most that many events. The page, followed by what lies beyond its next position, is what lay
  -- beyond the position asked for, so that reading on skips and repeats nothing; and the page says that
  -- it is complete exactly if nothing is left.
  pub read_all_pages :
      (after limit : ℕ) (s : EventStore P)
      → Numbered 0 s.all_events
      → bad_limit limit s ≡ false
      → (page : EventPage P) × (read_all after limit s ≡ ok page)
        × (length page.events ≤ limit)
        × (page.events ++ beyond page.next_position s.all_events ≡ beyond after s.all_events)
        × ((page.complete ≡ true) ↔ (beyond page.next_position s.all_events ≡ []))
  unfolding read_all
  read_all_pages after limit s n fine =
      let available = beyond after s.all_events in
      let selected = take limit available in
      let page : EventPage P = record {
        events = selected;
        next_position = last_position after selected;
        complete = leb (length available) limit;
      } in
      let whole = page_beyond limit after 0 s.all_events n in
      (
        page,
        rw fine refl,
        length-take-le limit available,
        whole,
        complete_iff limit available (beyond (last_position after selected) s.all_events) whole,
      )
