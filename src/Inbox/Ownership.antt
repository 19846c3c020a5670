-- ===== src/Inbox/Ownership.antt =====
-- A token acts on its own reservation only, and not at all once another token has replaced it.
use pytitect.Prelude.{
  ℕ, ◌<◌, String, false, ◌≡◌, ◌≢◌, refl, Option, none, some, List, [], ◌∷◌, All, arith, utc, other,
  Timedelta, not_positive, ◌+ₜ◌, ◌||◌, ◌==◌, String_eq, inl, inr, Bool-cases, ok,
}
use pytitect.Prelude.Dict.{get, pop, get-put, get-pop, get-pop_all, keys}
use pytitect.Maintenance.{Plan, remaining}
use pytitect.Inbox.{
  InboxScope, Identity, identity_eq, InboxEntry, InboxStore, inbox_accepted, inbox_in_progress,
  begin, begin_locked, complete, complete_locked, abandon, abandon_locked, purge, purgeable,
}
use pytitect.Inbox.Calls.{Call, perform, perform_all}

-- While a message is reserved and not completed, `begin` of it with valid arguments reports when
-- the reservation ends, and changes nothing.
pub begin_busy :
    (scope : InboxScope) (message_id token : String) (t : ℕ) (ttl : Timedelta) (s : InboxStore)
    (x : InboxEntry)
    → get (scope, message_id) s.entries ≡ some x
    → x.completed_at ≡ none
    → t < x.expires_at
    → ((token == "") || not_positive ttl) ≡ false
    → begin scope message_id token (utc t) ttl s ≡ (ok (inbox_in_progress x.expires_at), s)
unfolding begin
begin_busy scope message_id token t ttl s x found open_ early fine = ground arith

-- The identity's entry, if any, belongs to another token.
abbrev pub IsForeign : String → Option InboxEntry → Type 0
IsForeign token none = Unit
IsForeign token (some x) = x.token ≢ token

-- The call does not begin with the token.
abbrev pub BeginsOther : String → Call → Type 0
BeginsOther token (Call.begin scope message_id token' now ttl) = token' ≢ token
BeginsOther token _ = Unit

IsForeign-begin :
    (token : String) (i j : Identity) (token' : String) (t : ℕ) (ttl : Timedelta)
    (o : Option InboxEntry) (s : InboxStore)
    → token' ≢ token
    → IsForeign token (get j s.entries)
    → IsForeign token (get j (begin_locked o i token' t ttl s).1.entries)
unfolding begin_locked
IsForeign-begin token i j token' t ttl none s differs h = ground (
  arith,
  get-put s.entries i j (record { token = token'; expires_at = t +ₜ ttl; completed_at = none }),
)
IsForeign-begin token i j token' t ttl (some x) s differs h = ground (
  arith,
  get-put (pop i s.entries) i j
      (record { token = token'; expires_at = t +ₜ ttl; completed_at = none }),
  get-pop s.entries i j,
)

IsForeign-complete :
    (token : String) (i j : Identity) (token' : String) (t : ℕ) (o : Option InboxEntry)
    (s : InboxStore)
    → get i s.entries ≡ o
    → IsForeign token (get j s.entries)
    → IsForeign token (get j (complete_locked o i token' t s).1.entries)
unfolding complete_locked
IsForeign-complete token i j token' t none s e h = h
IsForeign-complete token i j token' t (some x) s e h =
    ground
      (arith, get-put s.entries i j (record x { completed_at = some t }), identity_eq.beq_iff i j)

IsForeign-abandon :
    (token : String) (i j : Identity) (token' : String) (o : Option InboxEntry) (s : InboxStore)
    → IsForeign token (get j s.entries)
    → IsForeign token (get j (abandon_locked o i token' s).1.entries)
unfolding abandon_locked
IsForeign-abandon token i j token' none s h = h
IsForeign-abandon token i j token' (some x) s h = ground (arith, get-pop s.entries i j)

IsForeign-purge :
    (token : String) (j : Identity) (plan : Plan) (s : InboxStore)
    → IsForeign token (get j s.entries)
    → IsForeign token (get j (purge plan s).1.entries)
unfolding purge remaining
IsForeign-purge token j plan s h = ground (arith, get-pop_all (keys (purgeable plan s)) s.entries j)

IsForeign-step :
    (token : String) (j : Identity) (c : Call) (s : InboxStore)
    → BeginsOther token c
    → IsForeign token (get j s.entries)
    → IsForeign token (get j (perform c s).entries)
unfolding perform begin complete abandon
IsForeign-step token j (Call.begin scope message_id token' (utc t) ttl) s b h =
    elim (Bool-cases ((token' == "") || not_positive ttl)) [
      | inl bad ↦ rw (bad, perform) h
      | inr fine ↦
          rw (fine, perform)
            (IsForeign-begin token (scope, message_id) j token' t ttl
              (get (scope, message_id) s.entries) s b h)
    ]
IsForeign-step token j (Call.begin scope message_id token' (other t) ttl) s b h = h
IsForeign-step token j (Call.complete scope message_id token' (utc t)) s b h =
    IsForeign-complete token (scope, message_id) j token' t (get (scope, message_id) s.entries) s
      refl h
IsForeign-step token j (Call.complete scope message_id token' (other t)) s b h = h
IsForeign-step token j (Call.abandon scope message_id token') s b h =
    IsForeign-abandon token (scope, message_id) j token' (get (scope, message_id) s.entries) s h
IsForeign-step token j (Call.purge plan) s b h = IsForeign-purge token j plan s h

IsForeign-All :
    (token : String) (j : Identity) (cs : List Call) (s : InboxStore)
    → All (BeginsOther token) cs
    → IsForeign token (get j s.entries)
    → IsForeign token (get j (perform_all cs s).entries)
unfolding perform_all
IsForeign-All token j [] s b h = h
IsForeign-All token j (c ∷ cs) s b h =
    IsForeign-All token j cs (perform c s) b.1 (IsForeign-step token j c s b.0 h)

foreign_refused :
    (o : Option InboxEntry) (i : Identity) (token : String) (t : ℕ) (s : InboxStore)
    → IsForeign token o
    → (complete_locked o i token t s ≡ (ok false, s)) × (abandon_locked o i token s ≡ (ok false, s))
unfolding complete_locked abandon_locked
foreign_refused none i token t s h = (refl, refl)
foreign_refused (some x) i token t s h = (
  ground (arith, String_eq.beq_iff x.token token),
  ground (arith, String_eq.beq_iff x.token token),
)

accepted_entry :
    (o : Option InboxEntry) (i : Identity) (token token' : String) (t : ℕ) (ttl : Timedelta)
    (s : InboxStore)
    → (begin_locked o i token t ttl s).0 ≡ ok (inbox_accepted token')
    → get i (begin_locked o i token t ttl s).1.entries
      ≡ some (record { token = token; expires_at = t +ₜ ttl; completed_at = none })
unfolding begin_locked
accepted_entry none i token token' t ttl s h = ground (
  arith,
  get-put s.entries i i (record { token = token; expires_at = t +ₜ ttl; completed_at = none }),
  identity_eq.beq_iff i i,
)
accepted_entry (some x) i token token' t ttl s h = ground (
  arith,
  get-put (pop i s.entries) i i
      (record { token = token; expires_at = t +ₜ ttl; completed_at = none }),
  identity_eq.beq_iff i i,
)

accepted-IsForeign :
    (scope : InboxScope) (message_id token accepted old : String) (t : ℕ) (ttl : Timedelta)
    (s : InboxStore)
    → (begin scope message_id token (utc t) ttl s).0 ≡ ok (inbox_accepted accepted)
    → token ≢ old
    → IsForeign old (get (scope, message_id) (begin scope message_id token (utc t) ttl s).1.entries)
unfolding begin
accepted-IsForeign scope message_id token accepted old t ttl s h differs =
    elim (Bool-cases ((token == "") || not_positive ttl)) [
      | inl bad ↦ absurd (ground arith)
      | inr fine ↦
          let i : Identity = (scope, message_id) in
          let o = get i s.entries in
          rw fine (rw (accepted_entry o i token accepted t ttl s (rw fine at h)) differs)
    ]

-- Once a message has been accepted under a token, every other token is refused: after any calls
-- that do not begin anything with the other token, completing or abandoning the message with it
-- answers False and changes nothing.
pub other_token_refused :
    (scope : InboxScope) (message_id token accepted old : String) (t t' : ℕ) (ttl : Timedelta)
    (s : InboxStore) (cs : List Call)
    → let s' = perform_all cs (begin scope message_id token (utc t) ttl s).1 in
      (begin scope message_id token (utc t) ttl s).0 ≡ ok (inbox_accepted accepted)
      → token ≢ old
      → All (BeginsOther old) cs
      → (complete scope message_id old (utc t') s' ≡ (ok false, s'))
        × (abandon scope message_id old s' ≡ (ok false, s'))
unfolding complete abandon
other_token_refused scope message_id token accepted old t t' ttl s cs h differs b =
    let i : Identity = (scope, message_id) in
    let s₁ = (begin scope message_id token (utc t) ttl s).1 in
    let s' = perform_all cs s₁ in
    let start : IsForeign old (get i s₁.entries) =
      accepted-IsForeign scope message_id token accepted old t ttl s h differs in
    foreign_refused (get i s'.entries) i old t' s' (IsForeign-All old i cs s₁ b start)
