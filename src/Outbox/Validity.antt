-- ===== src/Outbox/Validity.antt =====
-- A well-formed outbox store, which every call keeps.
use pytitect.Prelude.{
  ℕ, ◌≤◌, String, Bool, true, false, ◌&&◌, not, ◌≡◌, refl, Option, none, some, List, [], ◌∷◌, leb,
  if◌then◌else◌, if_either, length, ◌==◌, ℕ_eq, String_eq, is_some, arith, inl, inr, Bool-cases,
  Option-cases, All, err, utc, other, Timedelta, not_positive, ◌+ₜ◌, Result, or_else, value_error,
  option_eq,
}
use pytitect.Prelude.Dict.{Dict, get, contains, IsUnique, length-put, put-IsUnique}
use pytitect.Prelude.Sorting.{key_then}
use pytitect.Maintenance.{Plan, select, remaining}
use pytitect.Maintenance.Effect.{remaining-IsUnique, length-remaining-le}
use pytitect.Outbox.Types.{
  OutboxAddResult, OutboxEnvelope, OutboxClaim, FailedOutboxEnvelope, Stored,
}
use pytitect.Outbox.Store.{
  OutboxStore, stored, id_leb, valid, settle, released, set_delivered, set_retried, set_failed, add,
  claim, delivered, retry, failed,
}
use pytitect.Outbox.Maintain.{
  is_purgeable, is_archivable, archivable, purge_delivered, archive_failed, archive_failed-store,
  delivered_time, failed_time,
}
use pytitect.Outbox.Claiming.{claim_utc, claim-IsUnique, length-claim, capacity-claim}
use pytitect.Outbox.Calls.{Call, perform}
use pytitect.Outbox.Moves.{
  Move, Settled, is_finished, add-Move, claim-Move, settle-Move, settle_stale, settle-valid,
  purge-Move, archive-Move, valid_item-some,
}

abbrev agree : Bool → Bool → Bool
agree a b = if a then b else not b

module _ {P : Type 0} where
  -- `failed` at a UTC instant: its test, and then the part under the lock.
  pub failed_utc :
      (c : OutboxClaim P) (reason : String) (t : ℕ) (s : OutboxStore P)
      → failed c reason (utc t) s
        ≡ (if reason == "" then (err value_error, s) else settle (set_failed reason t) c s)
  unfolding failed
  failed_utc c reason t s = elim (Bool-cases (reason == "")) [
    | inl bad ↦ rw bad refl
    | inr fine ↦ rw fine refl
  ]

  claim_utc-Move :
      (uuid : ℕ → String) (t limit : ℕ) (ttl : Timedelta) (s : OutboxStore P) (i : String)
      → IsUnique s.items
      → Move
          (Call.claim uuid (utc t) limit ttl)
          i
          (get i s.items)
          (get i (claim uuid (utc t) limit ttl s).1.items)
  claim_utc-Move uuid t limit ttl s i u =
      let M = λ (r : Result (List (OutboxClaim P)) × OutboxStore P).
        Move (Call.claim uuid (utc t) limit ttl) i (get i s.items) (get i r.1.items) in
      rw claim_utc (
        if_either M (limit == 0) (Move.unchanged refl) (
          if_either M (not_positive ttl) (Move.unchanged refl)
            (claim-Move uuid (utc t) ttl t limit (t +ₜ ttl) s i u)))

  failed_utc-Move :
      (c : OutboxClaim P) (reason : String) (t : ℕ) (s : OutboxStore P) (i : String)
      → Move
          (Call.failed c reason (utc t))
          i
          (get i s.items)
          (get i (failed c reason (utc t) s).1.items)
  failed_utc-Move c reason t s i = rw failed_utc (elim (Bool-cases (reason == "")) [
    | inl bad ↦ rw bad (Move.unchanged refl)
    | inr fine ↦ rw fine (
        settle-Move (Call.failed c reason (utc t)) (set_failed reason t) c s i
          (λ item. Settled.to_failed reason t fine))
  ])

  -- Every call moves each message as the cases of `Move` say.
  pub perform-Move :
      (c : Call P) (s : OutboxStore P) (i : String)
      → IsUnique s.items
      → Move c i (get i s.items) (get i (perform c s).items)
  unfolding perform
  perform-Move (Call.add e) s i u = add-Move (Call.add e) e s i
  perform-Move (Call.claim uuid (utc t) limit ttl) s i u = claim_utc-Move uuid t limit ttl s i u
  perform-Move (Call.claim uuid (other t) limit ttl) s i u = unfold claim in Move.unchanged refl
  perform-Move (Call.delivered c (utc t)) s i u =
      unfold delivered in
      settle-Move (Call.delivered c (utc t)) (set_delivered t) c s i
        (λ item. Settled.to_delivered t)
  perform-Move (Call.delivered c (other t)) s i u = unfold delivered in Move.unchanged refl
  perform-Move (Call.retry c (utc t)) s i u =
      unfold retry in
      settle-Move (Call.retry c (utc t)) (set_retried t) c s i (λ item. Settled.to_retried t)
  perform-Move (Call.retry c (other t)) s i u = unfold retry in Move.unchanged refl
  perform-Move (Call.failed c reason (utc t)) s i u = failed_utc-Move c reason t s i
  perform-Move (Call.failed c reason (other t)) s i u = unfold failed in Move.unchanged refl
  perform-Move (Call.purge_delivered plan) s i u = purge-Move plan s i u
  perform-Move (Call.archive_failed archive plan) s i u = archive-Move archive plan s i u

  -- An item is under its own ID; it is claimed until some time or not at all; it has not both been
  -- delivered and failed; it failed at some time and for a reason or not at all; and it is not claimed
  -- once it is finished.
  abbrev pub is_sound : String → Stored P → Bool
  is_sound i item =
      (item.envelope.message_id == i)
      && agree (is_some item.claim_id) (is_some item.claimed_until)
      && not (is_some item.delivered_at && is_some item.failure_reason)
      && agree (is_some item.failed_at) (is_some item.failure_reason)
      && not (or_else item.failure_reason "failed" == "")
      && not (is_finished item && is_some item.claim_id)

  abbrev pub Sound : String → Option (Stored P) → Type 0
  Sound i none = Unit
  Sound i (some item) = is_sound i item ≡ true

  Settled-Sound :
      (i claim_id : String) (item item' : Stored P)
      → is_sound i item ≡ true
      → is_finished item ≡ false
      → item.claim_id ≡ some claim_id
      → Settled item item'
      → is_sound i (released item') ≡ true
  Settled-Sound i claim_id item item' h f c (Settled.to_delivered t) = ground (arith, h, f)
  Settled-Sound i claim_id item item' h f c (Settled.to_retried t) = ground (arith, h, f)
  Settled-Sound i claim_id item item' h f c (Settled.to_failed reason t r) = ground (arith, h, f, r)

  Move-Sound :
      (c : Call P) (i : String) (o o' : Option (Stored P)) → Sound i o → Move c i o o' → Sound i o'
  Move-Sound c i o o' h (Move.unchanged e) = rw e h
  Move-Sound c i o o' h (Move.added e named absent after) =
      rw after (ground (arith, String_eq.beq_iff e.message_id i, named))
  Move-Sound c i o o' h (Move.claimed item claim_id until issued there open_ after) =
      let sound : is_sound i item ≡ true = rw there at h in rw after (ground (arith, sound, open_))
  Move-Sound c i o o' h (Move.settled item item' claim_id there open_ owned how after) =
      rw after (Settled-Sound i claim_id item item' (rw there at h) open_ owned how)
  Move-Sound c i o o' h (Move.removed item t cut there by_then after) = rw after tt

  pub record IsValid (s : OutboxStore P) : Type 0 where
    pub within : length s.items ≤ s.capacity
    pub unique : IsUnique s.items
    pub sound : (i : String) → Sound i (get i s.items)

  -- At most as many items as before or as the capacity allows, one for each ID.
  record Bounded (s s' : OutboxStore P) : Type 0 where
    same : s'.capacity ≡ s.capacity
    within : length s'.items ≤ s.capacity
    unique : IsUnique s'.items

  settle-Bounded :
      (change : Stored P → Stored P) (c : OutboxClaim P) (s : OutboxStore P)
      → IsValid s
      → Bounded s (settle change c s).1
  settle-Bounded change c s v = elim (Option-cases (valid s c)) [
    | inl stale ↦
        rw (settle_stale change c s stale)
          (record { same = refl; within = v.within; unique = v.unique })
    | inr (item, e) ↦
        let there =
          (valid_item-some c (get c.envelope.message_id s.items) item (unfold valid in e)).0 in
        rw (settle-valid change c s item e) (record {
          same = refl;
          within = ground (
            arith,
            v.within,
            length-put s.items c.envelope.message_id (released (change item)),
            there,
          );
          unique = put-IsUnique s.items c.envelope.message_id (released (change item)) v.unique;
        })
  ]

  kept-Bounded : (s : OutboxStore P) → IsValid s → Bounded s s
  kept-Bounded s v = record { same = refl; within = v.within; unique = v.unique }

  claim-Bounded :
      (uuid : ℕ → String) (t limit : ℕ) (ttl : Timedelta) (s : OutboxStore P)
      → IsValid s
      → Bounded s (claim uuid (utc t) limit ttl s).1
  claim-Bounded uuid t limit ttl s v =
      let B = λ (r : Result (List (OutboxClaim P)) × OutboxStore P). Bounded s r.1 in
      rw claim_utc (
        if_either B (limit == 0) (kept-Bounded s v) (
          if_either B (not_positive ttl) (kept-Bounded s v) (record {
            same = capacity-claim uuid t limit (t +ₜ ttl) s;
            within = omega (arith, length-claim uuid t limit (t +ₜ ttl) s v.unique, v.within);
            unique = claim-IsUnique uuid t limit (t +ₜ ttl) s v.unique;
          })))

  failed-Bounded :
      (c : OutboxClaim P) (reason : String) (t : ℕ) (s : OutboxStore P)
      → IsValid s
      → Bounded s (failed c reason (utc t) s).1
  failed-Bounded c reason t s v = rw failed_utc (
      if_either (λ (r : Result Bool × OutboxStore P). Bounded s r.1) (reason == "")
        (kept-Bounded s v) (settle-Bounded (set_failed reason t) c s v))

  add-Bounded : (e : OutboxEnvelope P) (s : OutboxStore P) → IsValid s → Bounded s (add e s).1
  unfolding add
  add-Bounded e s v =
      if_either (λ (r : Result OutboxAddResult × OutboxStore P). Bounded s r.1)
        (contains e.message_id s.items) (kept-Bounded s v)
        (elim (Bool-cases (leb s.capacity (length s.items))) [
          | inl full ↦ rw full (kept-Bounded s v)
          | inr room ↦ rw room (record {
            same = refl;
            within = ground (arith, length-put s.items e.message_id (stored e));
            unique = put-IsUnique s.items e.message_id (stored e) v.unique;
          })
        ])

  taken-Bounded :
      (leq : String × Stored P → String × Stored P → Bool) (test : String × Stored P → Bool) (n : ℕ)
      (b : Bool) (s : OutboxStore P)
      → IsValid s
      → Bounded s (record s { items = remaining b (select leq test n s.items) s.items })
  taken-Bounded leq test n b s v = record {
    same = refl;
    within = omega (arith, length-remaining-le leq test n s.items b, v.within);
    unique = remaining-IsUnique leq test n s.items b v.unique;
  }

  archive-Bounded :
      (archive : List (FailedOutboxEnvelope P) → Result (Unit {0})) (plan : Plan)
      (s : OutboxStore P)
      → IsValid s
      → Bounded s (archive_failed (λ xs (w : Unit {0}). (archive xs, w)) plan (s, tt)).1.0
  archive-Bounded archive plan s v =
      elim (archive_failed-store (λ xs (w : Unit {0}). (archive xs, w)) plan s tt) [
        | inl same ↦ rw same (kept-Bounded s v)
        | inr taken ↦ rw taken (
            unfold archivable in
            taken-Bounded (key_then failed_time id_leb) (is_archivable plan) plan.batch_size false s
              v)
      ]

  perform-Bounded : (c : Call P) (s : OutboxStore P) → IsValid s → Bounded s (perform c s)
  unfolding perform
  perform-Bounded (Call.add e) s v = add-Bounded e s v
  perform-Bounded (Call.claim uuid (utc t) limit ttl) s v = claim-Bounded uuid t limit ttl s v
  perform-Bounded (Call.claim uuid (other t) limit ttl) s v = unfold claim in kept-Bounded s v
  perform-Bounded (Call.delivered c (utc t)) s v =
      unfold delivered in settle-Bounded (set_delivered t) c s v
  perform-Bounded (Call.delivered c (other t)) s v = unfold delivered in kept-Bounded s v
  perform-Bounded (Call.retry c (utc t)) s v = unfold retry in settle-Bounded (set_retried t) c s v
  perform-Bounded (Call.retry c (other t)) s v = unfold retry in kept-Bounded s v
  perform-Bounded (Call.failed c reason (utc t)) s v = failed-Bounded c reason t s v
  perform-Bounded (Call.failed c reason (other t)) s v = unfold failed in kept-Bounded s v
  perform-Bounded (Call.purge_delivered plan) s v =
      unfold purge_delivered in
      taken-Bounded (key_then delivered_time id_leb) (is_purgeable plan) plan.batch_size
        plan.dry_run s v
  perform-Bounded (Call.archive_failed archive plan) s v = archive-Bounded archive plan s v

  -- Every call keeps the store well formed, whether it returns or raises.
  pub perform_outbox-IsValid : (c : Call P) (s : OutboxStore P) → IsValid s → IsValid (perform c s)
  perform_outbox-IsValid c s v =
      let b = perform-Bounded c s v in
      record {
        within = rw b.same b.within;
        unique = b.unique;
        sound = λ i.
            Move-Sound c i (get i s.items) (get i (perform c s).items) (v.sound i)
              (perform-Move c s i v.unique);
      }

  -- Soundness, checked item by item.
  pub All-Sound :
      (items : Dict String (Stored P))
      → All (λ x. is_sound x.0 x.1 ≡ true) items
      → (i : String) → Sound i (get i items)
  unfolding get
  All-Sound [] h i = tt
  All-Sound ((k, x) ∷ items) h i = elim (Bool-cases (k == i)) [
    | inl same ↦ rw same (rw (← (String_eq.beq_iff k i).0 same) h.0)
    | inr differs ↦ rw differs (All-Sound items h.1 i)
  ]
