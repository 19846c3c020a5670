-- ===== src/Inbox/Tests.antt =====
-- Tests of the inbox modules: a message that is accepted and completed, and theorems applied to it.
use pytitect.Prelude.{
  ℕ, ◌⊎◌, ◌+◌, ◌≤◌, ◌≡◌, refl, true, false, some, none, List, [], ◌∷◌, arith, ok, String_eq, utc,
  pos, length,
}
use pytitect.Prelude.Dict.{get, put, keys, elem}
use pytitect.Maintenance.{Plan, select}
use pytitect.Prelude.Sorting.{sorted}
use pytitect.Inbox.{
  InboxScope, scope_eq, identity_eq, InboxEntry, InboxStore, inbox_accepted, inbox_duplicate, begin,
  complete, abandon, purge, purgeable,
}
use pytitect.Inbox.Calls.{Call, perform_all}
use pytitect.Inbox.Validity.{IsValid}
use pytitect.Inbox.Duplicates.{completed_duplicate}
use pytitect.Inbox.Ownership.{other_token_refused}
use pytitect.Inbox.Purging.{purge_effect}

abbrev mail : InboxScope
mail = record { namespace = "shop"; source = "mail"; consumer = "billing" }

abbrev entry : InboxEntry
entry = record { token = "t1"; expires_at = 70; completed_at = none }

abbrev empty : InboxStore
empty = record { capacity = 3; entries = [] }

-- What `begin` at time 10 for 60 leaves.
abbrev held : InboxStore
held = record { capacity = 3; entries = ((mail, "m1"), entry) ∷ [] }

held-IsValid : IsValid held
unfolding get
held-IsValid = record { fits = omega arith; unique = (refl, tt) }

held_m1 : get (mail, "m1") held.entries ≡ some entry
unfolding get
held_m1 = refl

begins : (begin mail "m1" "t1" (utc 10) (pos 60) empty).0 ≡ ok (inbox_accepted "t1")
unfolding begin get put
begins = refl

completes : (complete mail "m1" "t1" (utc 20) held).0 ≡ ok true
unfolding complete get put
completes = refl

abbrev calls : List Call
calls = Call.begin mail "m2" "t3" (utc 30) (pos 60) ∷ Call.complete mail "m2" "t3" (utc 40) ∷ []

completed_duplicate_example :
    let s' = perform_all calls (complete mail "m1" "t1" (utc 20) held).1 in
    ((c : ℕ) × (begin mail "m1" "t2" (utc 90) (pos 60) s' ≡ (ok (inbox_duplicate c), s'))
      × (20 ≤ c))
    × (abandon mail "m1" "t2" s' ≡ (ok false, s'))
completed_duplicate_example =
    completed_duplicate mail "m1" "t1" 20 held calls "t2" 90 (pos 60) held-IsValid completes
      (tt, (omega arith, tt)) refl

other_token_refused_example :
    let s' = perform_all calls (begin mail "m1" "t1" (utc 10) (pos 60) empty).1 in
    (complete mail "m1" "t2" (utc 20) s' ≡ (ok false, s'))
    × (abandon mail "m1" "t2" s' ≡ (ok false, s'))
other_token_refused_example =
    other_token_refused mail "m1" "t1" "t1" "t2" 10 20 (pos 60) empty calls begins
      (λ q. ground (arith, String_eq.beq_iff "t1" "t2"))
      ((λ q. ground (arith, String_eq.beq_iff "t3" "t2")), (tt, tt))

abbrev old_one : Plan
old_one = record { cutoff = 100; batch_size = 1; dry_run = false }

-- Two messages that a purge might take, of which it takes the older.
abbrev two : InboxStore
two = record {
  capacity = 3;
  entries = ((mail, "m1"), entry) ∷ ((mail, "m2"), record entry { expires_at = 90 }) ∷ [];
}

two-IsValid : IsValid two
unfolding get
two-IsValid = record { fits = omega arith; unique = (refl, (refl, tt)) }

two_m2 : get (mail, "m2") two.entries ≡ some (record entry { expires_at = 90 })
unfolding get
two_m2 = refl

m2_left : elem (mail, "m2") (keys (purgeable old_one two)) ≡ false
unfolding select sorted
m2_left = refl

two_m1 : get (mail, "m1") two.entries ≡ some entry
unfolding get
two_m1 = refl

purge_effect_example :
    let left = (purge old_one two).1.entries in
    ((purge old_one two).0 ≡ ok (record { selected = 1; affected = 1; dry_run = false }))
    × (length left + 1 ≡ 2)
    × ((get (mail, "m2") left ≡ some (record entry { expires_at = 90 }))
        ⊎ (get (mail, "m2") left ≡ none) × (90 ≤ 100))
    × ((get (mail, "m2") left ≡ none) ⊎ (get (mail, "m1") left ≡ some entry) ⊎ (70 ≤ 90))
purge_effect_example =
    purge_effect old_one two (mail, "m2") (mail, "m1") (record entry { expires_at = 90 }) entry
      two-IsValid two_m2 two_m1
