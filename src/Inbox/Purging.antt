-- ===== src/Inbox/Purging.antt =====
-- What `purge` removes from the inbox and what it reports.
use Prim.Native.Nat.{min}
use pytitect.Prelude.{
  ℕ, suc, ◌+◌, ◌≤◌, true, false, ◌≡◌, ◌⊎◌, refl, Option, none, some, [], ◌∷◌, arith, length, leb,
  filter, All, if◌then◌else◌, ok, inl, inr, Bool-cases, or_else, ap, sym, ◌∙◌,
}
use pytitect.Prelude.Dict.{Dict, get, keys, elem}
use pytitect.Prelude.Sorting.{key_then}
use pytitect.Maintenance.{Plan, remaining}
use pytitect.Maintenance.Selection.{select_oldest}
use pytitect.Maintenance.Effect.{report-ok, length-remaining}
use pytitect.Maintenance.Oldest.{length-select, kept_or_gone, gone_oldest}
use pytitect.Inbox.{
  Identity, identity_eq, InboxEntry, InboxStore, purge, purgeable, purge_test, is_purgeable,
  settled_at, identity_leb,
}
use pytitect.Inbox.Validity.{IsValid}

-- When an entry was completed, or expires if it was not.
abbrev pub ending : Option ℕ → ℕ → ℕ
ending none expires_at = expires_at
ending (some completed_at) expires_at = completed_at

abbrev pub end_of : InboxEntry → ℕ
end_of x = ending x.completed_at x.expires_at

-- How many entries have ended by an instant.
abbrev pub ended_by : ℕ → Dict Identity InboxEntry → ℕ
ended_by cutoff [] = 0
ended_by cutoff ((i, x) ∷ d) =
    let rest = ended_by cutoff d in if leb (end_of x) cutoff then suc rest else rest

purge_test-end :
    (o : Option ℕ) (expires_at cutoff : ℕ)
    → purge_test o expires_at cutoff ≡ leb (ending o expires_at) cutoff
purge_test-end none expires_at cutoff = refl
purge_test-end (some completed_at) expires_at cutoff = refl

settled_at-end : (o : Option ℕ) (expires_at : ℕ) → or_else o expires_at ≡ ending o expires_at
settled_at-end none expires_at = refl
settled_at-end (some completed_at) expires_at = refl

purgeable_at :
    (plan : Plan) (x : Identity × InboxEntry) → is_purgeable plan x ≡ leb (settled_at x) plan.cutoff
purgeable_at plan (i, x) =
    purge_test-end x.completed_at x.expires_at plan.cutoff
    ∙ ap (λ t. leb t plan.cutoff) (sym (settled_at-end x.completed_at x.expires_at))

length-ended :
    (plan : Plan) (d : Dict Identity InboxEntry)
    → length (filter (is_purgeable plan) d) ≡ ended_by plan.cutoff d
length-ended plan [] = refl
length-ended plan ((i, x) ∷ d) =
    ground (arith, length-ended plan d, purge_test-end x.completed_at x.expires_at plan.cutoff)

counted :
    (plan : Plan) (s : InboxStore)
    → IsValid s
    → length (remaining plan.dry_run (purgeable plan s) s.entries)
        + (if plan.dry_run then 0 else length (purgeable plan s))
      ≡ length s.entries
counted plan s v = elim (Bool-cases plan.dry_run) [
  | inl dry ↦ rw dry (unfold remaining in omega arith)
  | inr wet ↦ rw wet (
      length-remaining (key_then settled_at identity_leb) (is_purgeable plan) plan.batch_size
        s.entries v.unique)
]

-- A purge of a well-formed inbox never raises and reports as selected the smaller of the batch
-- size and the number of entries that, by the cutoff, were completed or, if not completed, had
-- expired; it removes as many (none in a dry run); an entry stays as it is, or is gone and had
-- ended so by the cutoff; and of two entries of which one is gone and the other is there, the one
-- that is gone ended no later.
pub purge_effect :
    (plan : Plan) (s : InboxStore) (j k : Identity) (x y : InboxEntry)
    → IsValid s
    → get j s.entries ≡ some x
    → get k s.entries ≡ some y
    → let n = min plan.batch_size (ended_by plan.cutoff s.entries) in
      let affected = if plan.dry_run then 0 else n in
      let left = (purge plan s).1.entries in
      ((purge plan s).0 ≡ ok (record { selected = n; affected = affected; dry_run = plan.dry_run }))
      × (length left + affected ≡ length s.entries)
      × ((get j left ≡ some x) ⊎ (get j left ≡ none) × (end_of x ≤ plan.cutoff))
      × ((get j left ≡ none) ⊎ (get k left ≡ some y) ⊎ (end_of y ≤ end_of x))
unfolding purge
purge_effect plan s j k x y v hx hy =
    let p = is_purgeable plan in
    let size : length (purgeable plan s) ≡ min plan.batch_size (ended_by plan.cutoff s.entries) =
      length-select (key_then settled_at identity_leb) p plan.batch_size s.entries
      ∙ ap (min plan.batch_size) (length-ended plan s.entries) in
    let end = settled_at-end x.completed_at x.expires_at in
    let passed = purge_test-end x.completed_at x.expires_at plan.cutoff in
    let kept =
      kept_or_gone settled_at identity_leb p plan.batch_size plan.dry_run s.entries v.unique j x
        hx in
    let oldest =
      gone_oldest settled_at identity_leb p plan.batch_size plan.dry_run s.entries v.unique
        plan.cutoff (purgeable_at plan) j k x y hx hy in
    (
      rw (sym size) (report-ok plan.dry_run (length (purgeable plan s))),
      rw (sym size) (counted plan s v),
      elim kept [ inl same ↦ inl same | inr (gone, old) ↦ inr (gone, ground (arith, passed, old)) ],
      elim oldest [
        | inl gone ↦ inl gone
        | inr (inl same) ↦ inr (inl same)
        | inr (inr later) ↦
            inr (inr (omega (arith, later, end, settled_at-end y.completed_at y.expires_at)))
      ],
    )

-- A purge takes the oldest first: an entry that it might have taken and did not is at least as old
-- as none of those that it selected, by the time of completion or else of expiry.
pub purge_oldest :
    (plan : Plan) (s : InboxStore) (j : Identity) (x : InboxEntry)
    → IsValid s
    → get j s.entries ≡ some x
    → is_purgeable plan (j, x) ≡ true
    → elem j (keys (purgeable plan s)) ≡ false
    → All (λ y. settled_at y ≤ settled_at (j, x)) (purgeable plan s)
purge_oldest plan s j x v =
    select_oldest settled_at identity_leb (is_purgeable plan) plan.batch_size s.entries j x v.unique
