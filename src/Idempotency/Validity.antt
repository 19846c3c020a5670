-- ===== src/Idempotency/Validity.antt =====
-- The well-formedness of the idempotency store, which every call keeps.
use pytitect.Prelude.{
  ℕ, ◌≤◌, ◌<◌, String, true, ◌≡◌, refl, Option, none, some, List, [], ◌∷◌, String_eq, arith, length,
  is_some,
}
use pytitect.Prelude.Dict.{
  Dict, get, put, pop_all, keys, get-put, get-pop, get-pop_all, move_to_end, get-move_to_end,
  IsUnique, put-IsUnique, pop_all-IsUnique, move_to_end-IsUnique, length-put, length-pop_all-le,
  length-move_to_end-le,
}
use pytitect.Prelude.{filter}
use pytitect.Idempotency.Types.{Identity, identity_eq, Entry, EntryState, Store}
use pytitect.Idempotency.Reserve.{pop_token, drop, drop_all, purge_expired, is_expired, reservation}
use pytitect.Idempotency.Settle.{executing, set_entry}
use pytitect.Idempotency.Linked.{
  IsLinked, drop_all-IsLinked, add-IsLinked, set-IsLinked, move-IsLinked,
}

module _ {T : Type 0} where
  -- At most `capacity` entries; an identity has one entry; tokens and entries are linked; a
  -- completed entry has its value.
  pub record IsValid (s : Store T) : Type 0 where
    pub fits : length s.entries ≤ s.capacity
    pub unique : IsUnique s.entries
    pub linked : IsLinked s
    pub valued :
        (i : Identity) (x : Entry T)
        → get i s.entries ≡ some x
        → x.state ≡ EntryState.completed
        → is_some x.value ≡ true

  pub entries-drop_all :
      (is : List Identity) (s : Store T)
      → ((drop_all is s).entries ≡ pop_all is s.entries) × ((drop_all is s).capacity ≡ s.capacity)
  unfolding drop_all pop_all
  entries-drop_all [] s = (refl, refl)
  entries-drop_all (i ∷ is) s = entries-drop_all is (drop i s)

  tokens-drop :
      (i : Identity) (o : Option (Entry T)) (tokens : Dict String Identity) (token : String)
      → get token tokens ≡ none
      → get token (pop_token o tokens) ≡ none
  tokens-drop i none tokens token h = h
  tokens-drop i (some x) tokens token h = ground (arith, get-pop tokens x.token token)

  -- Dropping entries adds no token.
  pub tokens-drop_all :
      (is : List Identity) (s : Store T) (token : String)
      → get token s.tokens ≡ none
      → get token (drop_all is s).tokens ≡ none
  unfolding drop_all
  tokens-drop_all [] s token h = h
  tokens-drop_all (i ∷ is) s token h =
      tokens-drop_all is (drop i s) token
        (unfold drop in tokens-drop i (get i s.entries) s.tokens token h)

  pub drop_all-IsValid : (is : List Identity) (s : Store T) → IsValid s → IsValid (drop_all is s)
  drop_all-IsValid is s v =
      let (same, cap) = entries-drop_all is s in
      record {
        fits = rw (same, cap) (omega (arith, length-pop_all-le is s.entries, v.fits));
        unique = rw same (pop_all-IsUnique is s.entries v.unique);
        linked = drop_all-IsLinked is s v.linked;
        valued = λ i x. rw same (λ q. ground (arith, get-pop_all is s.entries i, v.valued i x));
      }

  pub purge_expired-IsValid : (now : ℕ) (s : Store T) → IsValid s → IsValid (purge_expired now s)
  unfolding purge_expired
  purge_expired-IsValid now s v = drop_all-IsValid (keys (filter (is_expired now) s.entries)) s v

  pub set_entry-IsValid :
      (i : Identity) (old x : Entry T) (s : Store T)
      → get i s.entries ≡ some old
      → x.token ≡ old.token
      → (x.state ≡ EntryState.completed → is_some x.value ≡ true)
      → IsValid s
      → IsValid (set_entry i x s)
  set_entry-IsValid i old x s found same value v = record {
    fits = ground (arith, length-put s.entries i x, v.fits);
    unique = put-IsUnique s.entries i x v.unique;
    linked = set-IsLinked i old x s found same v.linked;
    valued = λ j y q. ground (arith, get-put s.entries i j x, v.valued j y);
  }

  pub move-IsValid :
      (i : Identity) (s : Store T)
      → IsValid s
      → IsValid (record s { entries = move_to_end i s.entries })
  move-IsValid i s v = record {
    fits = omega (arith, length-move_to_end-le s.entries i, v.fits);
    unique = move_to_end-IsUnique s.entries i v.unique;
    linked = move-IsLinked i s v.linked;
    valued = λ j y q. ground (arith, get-move_to_end s.entries i j, v.valued j y);
  }

  pub add-IsValid :
      (i : Identity) (token fingerprint : String) (expires_at : ℕ) (s : Store T)
      → get i s.entries ≡ none
      → get token s.tokens ≡ none
      → length s.entries < s.capacity
      → IsValid s
      → IsValid (record s {
        entries = put i (reservation token fingerprint expires_at) s.entries;
        tokens = put token i s.tokens;
      })
  add-IsValid i token fingerprint expires_at s absent fresh room v =
      let x = reservation token fingerprint expires_at in
      record {
        fits = ground (arith, length-put s.entries i x, v.fits);
        unique = put-IsUnique s.entries i x v.unique;
        linked = add-IsLinked i token fingerprint expires_at s absent fresh v.linked;
        valued = λ j y q. ground (arith, get-put s.entries i j x, v.valued j y);
      }

  -- What `_executing` finds is the reserved entry that the token leads to, unexpired.
  pub executing_found :
      (token : String) (now : ℕ) (s : Store T) (i : Identity) (x : Entry T)
      → executing token now s ≡ some (i, x)
      → (get token s.tokens ≡ some i)
        × (get i s.entries ≡ some x)
        × (x.token ≡ token)
        × (x.state ≡ EntryState.reserved)
        × (now < x.expires_at)
  unfolding executing
  executing_found token now s i x h = ground (arith, String_eq.beq_iff x.token token)
