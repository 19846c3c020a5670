-- ===== src/Outbox/Moves.antt =====
-- What a call may do to one message of the outbox.
use pytitect.Prelude.{
  ℕ, String, Bool, true, false, ◌&&◌, ◌||◌, ◌≡◌, refl, Option, none, some, List, leb, length, ◌==◌,
  ℕ_eq, String_eq, is_some, option_beq_iff, arith, inl, inr, Bool-cases, Option-cases, ok,
  Timedelta, Result, Datetime,
}
use pytitect.Prelude.Dict.{
  get, put, keys, elem, contains, IsUnique, get-put, get-pop_all, holds_at, Selected-elem,
}
use pytitect.Prelude.Sorting.{key_then}
use pytitect.Maintenance.{Plan, select, remaining}
use pytitect.Maintenance.Selection.{select-All}
use pytitect.Outbox.Types.{OutboxEnvelope, OutboxClaim, FailedOutboxEnvelope, Stored}
use pytitect.Outbox.Store.{
  OutboxStore, stored, id_leb, held, valid, valid_item, settle, settle_found, released,
  set_delivered, set_retried, set_failed, add, claim_locked,
}
use pytitect.Outbox.Maintain.{
  is_past, is_purgeable, is_archivable, archivable, purge_delivered, archive_failed,
  archive_failed-store, delivered_time, failed_time,
}
use pytitect.Outbox.Claiming.{claim-cases}
use pytitect.Outbox.Calls.{Call}

module _ {P : Type 0} where
  -- The message has been delivered or has failed.
  abbrev pub is_finished : Stored P → Bool
  is_finished item = is_some item.delivered_at || is_some item.failure_reason

  -- The same, at a time.
  abbrev pub finished_by : ℕ → Stored P → Bool
  finished_by t item =
      is_past item.delivered_at t || (is_some item.failure_reason && is_past item.failed_at t)

  -- How a settled item differs: delivered, to be tried again, or failed for a reason.
  pub data Settled (item : Stored P) : Stored P → Type 0 where
    to_delivered : (t : ℕ) → Settled item (set_delivered t item)
    to_retried : (t : ℕ) → Settled item (set_retried t item)
    to_failed :
        (reason : String) (t : ℕ) → (reason == "") ≡ false → Settled item (set_failed reason t item)

  -- The cutoff of a purge or an archive.
  abbrev pub cutoff_of : Call P → Option ℕ
  cutoff_of (Call.purge_delivered plan) = some plan.cutoff
  cutoff_of (Call.archive_failed archive plan) = some plan.cutoff
  cutoff_of _ = none

  -- The call may give out this claim ID.
  abbrev pub Issues : Call P → String → Type 0
  Issues (Call.claim uuid now limit ttl) claim_id = (n : ℕ) × (uuid n ≡ claim_id)
  Issues _ claim_id = ⊥

  -- What a call may make of the item under an ID.
  pub data Move (c : Call P) (i : String) (o o' : Option (Stored P)) : Type 0 where
    unchanged : o' ≡ o → Move c i o o'
    added :
        (e : OutboxEnvelope P) → e.message_id ≡ i → o ≡ none → o' ≡ some (stored e) → Move c i o o'
    claimed :
        (item : Stored P) (claim_id : String) (until : ℕ)
        → Issues c claim_id
        → o ≡ some item
        → is_finished item ≡ false
        → o' ≡ some (held claim_id until item)
        → Move c i o o'
    settled :
        (item item' : Stored P) (claim_id : String)
        → o ≡ some item
        → is_finished item ≡ false
        → item.claim_id ≡ some claim_id
        → Settled item item'
        → o' ≡ some (released item')
        → Move c i o o'
    removed :
        (item : Stored P) (t : ℕ)
        → cutoff_of c ≡ some t
        → o ≡ some item
        → finished_by t item ≡ true
        → o' ≡ none
        → Move c i o o'

  pub add-Move :
      (call : Call P) (e : OutboxEnvelope P) (s : OutboxStore P) (i : String)
      → Move call i (get i s.items) (get i (add e s).1.items)
  unfolding add
  add-Move call e s i = elim (Bool-cases (contains e.message_id s.items)) [
    | inl there ↦ rw there (Move.unchanged refl)
    | inr fresh ↦ rw fresh (elim (Bool-cases (leb s.capacity (length s.items))) [
      | inl full ↦ rw full (Move.unchanged refl)
      | inr room ↦ rw room (elim (Bool-cases (e.message_id == i)) [
        | inl same ↦
            let named : e.message_id ≡ i = (String_eq.beq_iff e.message_id i).0 same in
            Move.added e named (ground (arith, fresh, named))
              (ground (arith, get-put s.items e.message_id i (stored e), same))
        | inr differs ↦
            Move.unchanged (ground (arith, get-put s.items e.message_id i (stored e), differs))
      ])
    ])
  ]

  pub claim-Move :
      (uuid : ℕ → String) (now : Datetime) (ttl : Timedelta) (t limit until : ℕ) (s : OutboxStore P)
      (i : String)
      → IsUnique s.items
      → Move
          (Call.claim uuid now limit ttl)
          i
          (get i s.items)
          (get i (claim_locked uuid t limit until s).1.items)
  claim-Move uuid now ttl t limit until s i u = elim (claim-cases uuid t limit until s i u) [
    | inl same ↦ Move.unchanged same
    | inr (item, k, e, ready, after) ↦
        Move.claimed item (uuid k) until (k, refl) e (ground (arith, ready)) after
  ]

  pub valid_item-some :
      (c : OutboxClaim P) (o : Option (Stored P)) (item : Stored P)
      → valid_item c o ≡ some item
      → (o ≡ some item) × (is_finished item ≡ false) × (item.claim_id ≡ some c.claim_id)
  valid_item-some c none item h = absurd (cc h)
  valid_item-some c (some x) item h = ground (arith, option_beq_iff x.claim_id (some c.claim_id), h)

  pub settle_stale :
      (change : Stored P → Stored P) (c : OutboxClaim P) (s : OutboxStore P)
      → valid s c ≡ none
      → settle change c s ≡ (ok false, s)
  unfolding settle settle_found
  settle_stale change c s h = rw h refl

  pub settle-valid :
      (change : Stored P → Stored P) (c : OutboxClaim P) (s : OutboxStore P) (item : Stored P)
      → valid s c ≡ some item
      → settle change c s
        ≡ (ok true, record s { items = put c.envelope.message_id (released (change item)) s.items })
  unfolding settle settle_found
  settle-valid change c s item h = rw h refl

  pub settle-Move :
      (call : Call P) (change : Stored P → Stored P) (c : OutboxClaim P) (s : OutboxStore P)
      (i : String)
      → ((item : Stored P) → Settled item (change item))
      → Move call i (get i s.items) (get i (settle change c s).1.items)
  settle-Move call change c s i how = elim (Option-cases (valid s c)) [
    | inl stale ↦ rw (settle_stale change c s stale) (Move.unchanged refl)
    | inr (item, e) ↦ rw (settle-valid change c s item e) (
        let (there, open_, owned) =
          valid_item-some c (get c.envelope.message_id s.items) item (unfold valid in e) in
        elim (Bool-cases (c.envelope.message_id == i)) [
          | inl same ↦
              let named : c.envelope.message_id ≡ i =
                (String_eq.beq_iff c.envelope.message_id i).0 same in
              Move.settled item (change item) c.claim_id (rw named at there) open_ owned (how item)
                (ground
                  (arith, get-put s.items c.envelope.message_id i (released (change item)), same))
          | inr differs ↦ Move.unchanged (
              ground
                (arith, get-put s.items c.envelope.message_id i (released (change item)), differs))
        ])
  ]

  remaining-Move :
      (call : Call P) (test : String × Stored P → Bool)
      (leq : String × Stored P → String × Stored P → Bool) (n : ℕ) (b : Bool) (t : ℕ)
      (s : OutboxStore P) (i : String)
      → IsUnique s.items
      → cutoff_of call ≡ some t
      → ((item : Stored P) → test (i, item) ≡ true → finished_by t item ≡ true)
      → Move call i (get i s.items) (get i (remaining b (select leq test n s.items) s.items))
  unfolding remaining
  remaining-Move call test leq n true t s i u cut by_then = Move.unchanged refl
  remaining-Move call test leq n false t s i u cut by_then =
      let sel = select leq test n s.items in
      elim (Bool-cases (elem i (keys sel))) [
        | inr out ↦ Move.unchanged (rw (get-pop_all (keys sel) s.items i, out) refl)
        | inl picked ↦ elim (Option-cases (get i s.items)) [
          | inl absent ↦ Move.unchanged (rw (get-pop_all (keys sel) s.items i, picked, absent) refl)
          | inr (item, e) ↦
              let passed : holds_at test i (get i s.items) ≡ true =
                Selected-elem test s.items sel i (select-All leq test n s.items u) picked in
              Move.removed item t cut e (by_then item (rw e at passed))
                (rw (get-pop_all (keys sel) s.items i, picked) refl)
        ]
      ]

  pub purge-Move :
      (plan : Plan) (s : OutboxStore P) (i : String)
      → IsUnique s.items
      → Move (Call.purge_delivered plan) i (get i s.items) (get i (purge_delivered plan s).1.items)
  unfolding purge_delivered
  purge-Move plan s i u =
      remaining-Move (Call.purge_delivered plan) (is_purgeable plan)
        (key_then delivered_time id_leb) plan.batch_size plan.dry_run plan.cutoff s i u refl
        (λ item h. ground (arith, h))

  pub archive-Move :
      (archive : List (FailedOutboxEnvelope P) → Result (Unit {0})) (plan : Plan)
      (s : OutboxStore P) (i : String)
      → IsUnique s.items
      → Move
          (Call.archive_failed archive plan)
          i
          (get i s.items)
          (get i (archive_failed (λ xs (w : Unit {0}). (archive xs, w)) plan (s, tt)).1.0.items)
  archive-Move archive plan s i u =
      elim (archive_failed-store (λ xs (w : Unit {0}). (archive xs, w)) plan s tt) [
        | inl same ↦ rw same (Move.unchanged refl)
        | inr taken ↦ rw taken (
            unfold archivable in
            remaining-Move (Call.archive_failed archive plan) (is_archivable plan)
              (key_then failed_time id_leb) plan.batch_size false plan.cutoff s i u refl
              (λ item h. ground (arith, h)))
      ]
