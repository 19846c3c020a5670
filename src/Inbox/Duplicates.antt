-- ===== src/Inbox/Duplicates.antt =====
-- A completed message stays a duplicate.
use pytitect.Prelude.{
  ℕ, ◌≤◌, ◌<◌, String, true, false, ◌≡◌, refl, Option, none, some, List, [], ◌∷◌, All, arith, utc,
  other, Timedelta, not_positive, ◌+ₜ◌, ◌||◌, ◌==◌, String_eq, inl, inr, Bool-cases, Option-cases,
  ok,
}
use pytitect.Prelude.Dict.{get, pop, get-put, get-pop, IsUnique}
use pytitect.Prelude.Sorting.{key_then}
use pytitect.Maintenance.{Plan}
use pytitect.Maintenance.Effect.{remaining_kept}
use pytitect.Inbox.{
  InboxScope, Identity, identity_eq, InboxEntry, InboxStore, inbox_duplicate, begin, accept,
  begin_found, begin_locked, complete, abandon, abandon_locked, purge, is_purgeable, settled_at,
  identity_leb,
}
use pytitect.Inbox.Calls.{Call, perform, perform_all}
use pytitect.Inbox.Validity.{IsValid, perform_message-IsValid}

abbrev DoneAt : ℕ → Option ℕ → Type 0
DoneAt floor none = ⊥
DoneAt floor (some completed_at) = floor ≤ completed_at

-- The entry is there and was completed at a time or later.
abbrev pub IsDoneSince : ℕ → Option InboxEntry → Type 0
IsDoneSince floor none = ⊥
IsDoneSince floor (some x) = DoneAt floor x.completed_at

-- A completion comes at a time or later, and a purge looks at what was settled before it.
abbrev pub KeepsDone : ℕ → Call → Type 0
KeepsDone floor (Call.complete scope message_id token (utc t)) = floor ≤ t
KeepsDone floor (Call.purge plan) = plan.cutoff < floor
KeepsDone floor _ = Unit

done_purge :
    (floor : ℕ) (i : Identity) (plan : Plan) (s : InboxStore)
    → IsUnique s.entries
    → plan.cutoff < floor
    → IsDoneSince floor (get i s.entries)
    → IsDoneSince floor (get i (purge plan s).1.entries)
unfolding purge
done_purge floor i plan s u early h =
    rw
      (remaining_kept (key_then settled_at identity_leb) (is_purgeable plan) plan.batch_size
        s.entries plan.dry_run i u (ground arith))
      h

-- `begin` of another identity changes nothing at an identity.
accept_other :
    (i j : Identity) (token : String) (expires_at : ℕ) (s : InboxStore)
    → (i == j) ≡ false
    → get j (accept i token expires_at s).1.entries ≡ get j s.entries
unfolding accept
accept_other i j token expires_at s differs = ground (
  arith,
  get-put s.entries i j (record { token = token; expires_at = expires_at; completed_at = none }),
)

pub begin_locked_other :
    (o : Option InboxEntry) (i j : Identity) (token : String) (now : ℕ) (ttl : Timedelta)
    (s : InboxStore)
    → (i == j) ≡ false
    → get j (begin_locked o i token now ttl s).1.entries ≡ get j s.entries
unfolding begin_locked
begin_locked_other none i j token now ttl s differs = accept_other i j token (now +ₜ ttl) s differs
begin_locked_other (some x) i j token now ttl s differs = ground (
  arith,
  accept_other i j token (now +ₜ ttl) (record s { entries = pop i s.entries }) differs,
  get-pop s.entries i j,
)

begin_locked_done :
    (o : Option InboxEntry) (floor : ℕ) (i : Identity) (token : String) (now : ℕ) (ttl : Timedelta)
    (s : InboxStore)
    → IsDoneSince floor o
    → (c : ℕ) × (begin_locked o i token now ttl s ≡ (ok (inbox_duplicate c), s)) × (floor ≤ c)
unfolding begin_locked
begin_locked_done none floor i token now ttl s h = absurd h
begin_locked_done (some x) floor i token now ttl s h = elim (Option-cases x.completed_at) [
  | inl open_ ↦ absurd (rw open_ at h)
  | inr (c, done) ↦ (c, rw (done, begin_found) refl, rw done at h)
]

done_begin :
    (floor : ℕ) (i j : Identity) (token : String) (now : ℕ) (ttl : Timedelta) (s : InboxStore)
    → IsDoneSince floor (get j s.entries)
    → IsDoneSince floor (get j (begin_locked (get i s.entries) i token now ttl s).1.entries)
done_begin floor i j token now ttl s h = elim (Bool-cases (i == j)) [
  | inl same ↦
      let e : i ≡ j = (identity_eq.beq_iff i j).0 same in
      let (c, stays, late) = begin_locked_done (get i s.entries) floor i token now ttl s (rw e h) in
      rw stays h
  | inr differs ↦ rw (begin_locked_other (get i s.entries) i j token now ttl s differs) h
]

done_abandon :
    (o : Option InboxEntry) (floor : ℕ) (i : Identity) (token : String) (s : InboxStore)
    → IsDoneSince floor o
    → abandon_locked o i token s ≡ (ok false, s)
unfolding abandon_locked
done_abandon none floor i token s h = absurd h
done_abandon (some x) floor i token s h = ground arith

pub abandon_locked_other :
    (o : Option InboxEntry) (i j : Identity) (token : String) (s : InboxStore)
    → (i == j) ≡ false
    → get j (abandon_locked o i token s).1.entries ≡ get j s.entries
unfolding abandon_locked
abandon_locked_other none i j token s differs = refl
abandon_locked_other (some x) i j token s differs = ground (arith, get-pop s.entries i j)

abandon_keeps :
    (floor : ℕ) (i j : Identity) (token : String) (s : InboxStore)
    → IsDoneSince floor (get j s.entries)
    → IsDoneSince floor (get j (abandon_locked (get i s.entries) i token s).1.entries)
abandon_keeps floor i j token s h = elim (Bool-cases (i == j)) [
  | inl same ↦
      let e : i ≡ j = (identity_eq.beq_iff i j).0 same in
      rw (done_abandon (get i s.entries) floor i token s (rw e h)) h
  | inr differs ↦ rw (abandon_locked_other (get i s.entries) i j token s differs) h
]

done_step :
    (floor : ℕ) (i : Identity) (c : Call) (s : InboxStore)
    → IsUnique s.entries
    → KeepsDone floor c
    → IsDoneSince floor (get i s.entries)
    → IsDoneSince floor (get i (perform c s).entries)
unfolding perform begin complete abandon
done_step floor i (Call.begin scope message_id token (utc t) ttl) s u k h =
    elim (Bool-cases ((token == "") || not_positive ttl)) [
      | inl bad ↦ rw (bad, perform) h
      | inr fine ↦ rw (fine, perform) (done_begin floor (scope, message_id) i token t ttl s h)
    ]
done_step floor i (Call.begin scope message_id token (other t) ttl) s u k h = h
done_step floor i (Call.complete scope message_id token (utc t)) s u k h =
    grind (arith, get-put, identity_eq.beq_iff)
done_step floor i (Call.complete scope message_id token (other t)) s u k h = h
done_step floor i (Call.abandon scope message_id token) s u k h =
    abandon_keeps floor (scope, message_id) i token s h
done_step floor i (Call.purge plan) s u k h = done_purge floor i plan s u k h

done-All :
    (floor : ℕ) (i : Identity) (cs : List Call) (s : InboxStore)
    → IsValid s
    → All (KeepsDone floor) cs
    → IsDoneSince floor (get i s.entries)
    → IsDoneSince floor (get i (perform_all cs s).entries)
unfolding perform_all
done-All floor i [] s v k h = h
done-All floor i (c ∷ cs) s v k h =
    done-All floor i cs (perform c s) (perform_message-IsValid c s v) k.1
      (done_step floor i c s v.unique k.0 h)

complete_done :
    (scope : InboxScope) (message_id token : String) (t : ℕ) (s : InboxStore)
    → (complete scope message_id token (utc t) s).0 ≡ ok true
    → IsDoneSince t (get (scope, message_id) (complete scope message_id token (utc t) s).1.entries)
unfolding complete
complete_done scope message_id token t s h =
    elim (Option-cases (get (scope, message_id) s.entries)) [
      | inl absent ↦ absurd (ground arith)
      | inr (x, found) ↦ ground (
        arith,
        get-put s.entries (scope, message_id) (scope, message_id)
            (record x { completed_at = some t }),
        identity_eq.beq_iff (scope, message_id) (scope, message_id),
      )
    ]

-- Once a message of a well-formed store has been completed, and whatever calls follow, in which
-- completions come no earlier and purges look only at what was settled before, `begin` of that
-- message in that scope, with a token and a positive duration, reports a duplicate completed at that time or later, `abandon` of it with any token answers
-- False, and neither changes anything.
pub completed_duplicate :
    (scope : InboxScope) (message_id token : String) (t : ℕ) (s : InboxStore) (cs : List Call)
    (token' : String) (t' : ℕ) (ttl : Timedelta)
    → let s' = perform_all cs (complete scope message_id token (utc t) s).1 in
      IsValid s
      → (complete scope message_id token (utc t) s).0 ≡ ok true
      → All (KeepsDone t) cs
      → ((token' == "") || not_positive ttl) ≡ false
      → ((c : ℕ) × (begin scope message_id token' (utc t') ttl s' ≡ (ok (inbox_duplicate c), s'))
          × (t ≤ c))
        × (abandon scope message_id token' s' ≡ (ok false, s'))
unfolding begin abandon
completed_duplicate scope message_id token t s cs token' t' ttl v h k fine =
    let s₁ = (complete scope message_id token (utc t) s).1 in
    let s' = perform_all cs s₁ in
    let v₁ : IsValid s₁ =
      unfold perform in
      perform_message-IsValid (Call.complete scope message_id token (utc t)) s v in
    let done =
      done-All t (scope, message_id) cs s₁ v₁ k (complete_done scope message_id token t s h) in
    (
      rw fine (
          begin_locked_done (get (scope, message_id) s'.entries) t (scope, message_id) token' t' ttl
            s' done),
      done_abandon (get (scope, message_id) s'.entries) t (scope, message_id) token' s' done,
    )
