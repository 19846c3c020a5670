-- ===== src/Transactions.antt =====
-- The transactions that consumers give to the coordinators (`TransactionBoundary` of
-- src/pytitect/checkpoints.py, `GenerationTransaction` of src/pytitect/sync/generations.py): a
-- block under `with transaction.atomic():` commits if it returns and rolls back if it raises.
use pytitect.Prelude.{
  value_error, String, String_eq, ◌==◌, Option, none, some, if◌then◌else◌, ◌≡◌, refl, Error, Result,
  ok, err, Action,
}

-- How a block ends: it returns, raises, or raises the exception that asks for a rollback with `x`.
pub data Outcome (A X : Type 0) : Type 0 where
  returned : A → Outcome A X
  raised : Error → Outcome A X
  rolled_back : X → Outcome A X

abbrev pub Block : Type 0 → Type 0 → Type 0 → Type 0
Block W A X = W → Outcome A X × W

abbrev pub outcome : {A X : Type 0} → Result A → Outcome A X
outcome (ok a) = returned a
outcome (err e) = raised e

-- A method called in a block.
abbrev pub run : {W A X : Type 0} → Action W A → Block W A X
run m w = let (r, w') = m w in (outcome r, w')

infixl 5 ◌>>=◌
abbrev pub ◌>>=◌ : {W A B X : Type 0} → Block W A X → (A → Block W B X) → Block W B X
◌>>=◌ m f w =
    let (r, w') = m w in
    elim r [ returned a ↦ f a w' | raised e ↦ (raised e, w') | rolled_back x ↦ (rolled_back x, w') ]

-- The documented behaviour of `atomic`.
pub record IsAtomic {W A X : Type 0} (atomic : Block W A X → Block W A X) : Type 0 where
  pub commits :
      (block : Block W A X) (w w' : W) (a : A)
      → block w ≡ (returned a, w')
      → atomic block w ≡ (returned a, w')
  pub aborts :
      (block : Block W A X) (w w' : W) (e : Error)
      → block w ≡ (raised e, w')
      → atomic block w ≡ (raised e, w)
  pub rolls_back :
      (block : Block W A X) (w w' : W) (x : X)
      → block w ≡ (rolled_back x, w')
      → atomic block w ≡ (rolled_back x, w)

-- `_matching_aliases` of src/pytitect/checkpoints.py, and the same test in `GenerationGuard`, on the
-- attributes `using` of the store and of the transaction, where they have one.
unfoldable pub matching_aliases : Option String → Option String → Result (Unit {0})
matching_aliases (some store) (some transaction) =
    if store == transaction then ok tt else err value_error
matching_aliases (some store) none = ok tt
matching_aliases none transaction = ok tt

-- A transaction that restores the world itself.
abbrev pub restore : {W A X : Type 0} → Outcome A X × W → W → Outcome A X × W
restore (returned a, w') w = (returned a, w')
restore (raised e, w') w = (raised e, w)
restore (rolled_back x, w') w = (rolled_back x, w)

abbrev pub snapshot : {W A X : Type 0} → Block W A X → Block W A X
snapshot block w = restore (block w) w

pub snapshot-IsAtomic : (W A X : Type 0) → IsAtomic (snapshot {W = W} {A = A} {X = X})
snapshot-IsAtomic W A X = record {
  commits = λ block w w' a h. rw h refl;
  aborts = λ block w w' e h. rw h refl;
  rolls_back = λ block w w' x h. rw h refl;
}
