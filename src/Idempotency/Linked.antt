-- ===== src/Idempotency/Linked.antt =====
-- The two dictionaries of the store agree: a token leads to the entry that has it, and every entry
-- is found by its token.
use pytitect.Prelude.{ℕ, String, ◌≡◌, refl, Option, none, some, List, [], ◌∷◌, String_eq, arith}
use pytitect.Prelude.Dict.{get, put, pop, get-put, get-pop, move_to_end, get-move_to_end}
use pytitect.Idempotency.Types.{scope_eq, Identity, identity_eq, Entry, Store}
use pytitect.Prelude.{pair_eq}
use pytitect.Idempotency.Reserve.{drop, drop_all, pop_token, reservation}

module _ {T : Type 0} where
  abbrev pub Holds : String → Option (Entry T) → Type 0
  Holds token none = ⊥
  Holds token (some entry) = entry.token ≡ token

  pub record IsLinked (s : Store T) : Type 0 where
    pub token_of :
        (i : Identity) (entry : Entry T)
        → get i s.entries ≡ some entry
        → get entry.token s.tokens ≡ some i
    pub owner_of :
        (token : String) (i : Identity)
        → get token s.tokens ≡ some i
        → Holds token (get i s.entries)

  -- Dropping the entry of an identity takes its token with it.
  dropped :
      (i : Identity) (o : Option (Entry T)) (s : Store T)
      → get i s.entries ≡ o
      → IsLinked s
      → IsLinked (record s { entries = pop i s.entries; tokens = pop_token o s.tokens })
  dropped i none s h v = record {
    token_of = λ j entry q. ground (arith, get-pop s.entries i j, v.token_of j entry);
    owner_of = λ token j q.
        ground (arith, get-pop s.entries i j, v.owner_of token j, identity_eq.beq_iff i j);
  }
  dropped i (some entry) s h v = record {
    token_of = λ j x q. ground (
      arith,
      get-pop s.entries i j,
      get-pop s.tokens entry.token x.token,
      v.token_of j x,
      v.token_of i entry,
      String_eq.beq_iff entry.token x.token,
      identity_eq.beq_iff i j,
    );
    owner_of = λ token j q. ground (
      arith,
      get-pop s.entries i j,
      get-pop s.tokens entry.token token,
      v.owner_of token j,
      String_eq.beq_iff entry.token token,
      identity_eq.beq_iff i j,
    );
  }

  pub drop-IsLinked : (i : Identity) (s : Store T) → IsLinked s → IsLinked (drop i s)
  unfolding drop
  drop-IsLinked i s v = dropped i (get i s.entries) s refl v

  pub drop_all-IsLinked : (is : List Identity) (s : Store T) → IsLinked s → IsLinked (drop_all is s)
  unfolding drop_all
  drop_all-IsLinked [] s v = v
  drop_all-IsLinked (i ∷ is) s v = drop_all-IsLinked is (drop i s) (drop-IsLinked i s v)

  -- A new entry under a fresh token.
  pub add-IsLinked :
      (i : Identity) (token fingerprint : String) (expires_at : ℕ) (s : Store T)
      → get i s.entries ≡ none
      → get token s.tokens ≡ none
      → IsLinked s
      → IsLinked (record s {
        entries = put i (reservation token fingerprint expires_at) s.entries;
        tokens = put token i s.tokens;
      })
  add-IsLinked i token fingerprint expires_at s absent fresh v = record {
    token_of = λ j x q. ground (
      arith,
      get-put s.entries i j (reservation token fingerprint expires_at),
      get-put s.tokens token x.token i,
      v.token_of j x,
      String_eq.beq_iff token x.token,
      identity_eq.beq_iff i j,
    );
    owner_of = λ t j q. ground (
      arith,
      get-put s.entries i j (reservation token fingerprint expires_at),
      get-put s.tokens token t i,
      v.owner_of t j,
      String_eq.beq_iff token t,
      identity_eq.beq_iff i j,
    );
  }

  -- An entry that is written over with the same token.
  pub set-IsLinked :
      (i : Identity) (old entry : Entry T) (s : Store T)
      → get i s.entries ≡ some old
      → entry.token ≡ old.token
      → IsLinked s
      → IsLinked (record s { entries = put i entry s.entries })
  set-IsLinked i old entry s found same v = record {
    token_of = λ j x q. ground (
      arith,
      get-put s.entries i j entry,
      v.token_of j x,
      v.token_of i old,
      identity_eq.beq_iff i j,
    );
    owner_of = λ t j q.
        ground (arith, get-put s.entries i j entry, v.owner_of t j, identity_eq.beq_iff i j);
  }

  pub move-IsLinked :
      (i : Identity) (s : Store T)
      → IsLinked s
      → IsLinked (record s { entries = move_to_end i s.entries })
  move-IsLinked i s v = record {
    token_of = λ j x q. ground (arith, get-move_to_end s.entries i j, v.token_of j x);
    owner_of = λ t j q. ground (arith, get-move_to_end s.entries i j, v.owner_of t j);
  }
