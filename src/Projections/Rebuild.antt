-- ===== src/Projections/Rebuild.antt =====
-- Rebuilds of src/pytitect/projections.py: each step of a run continues the fold over the log, and a
-- run that completes publishes the fold up to its watermark.
use pytitect.Prelude.{
  ℕ, ◌≤◌, String, Bool, true, false, ◌&&◌, ◌||◌, not, ◌≡◌, refl, sym, ap, ◌∙◌, Option, none, some,
  List, ltb, if◌then◌else◌, if_either, arith, length, take, inl, inr, Bool-cases, ◌==◌, ==_refl,
  ℕ_eq, String_eq, Result, ok, err,
}
use pytitect.Prelude.Dict.{get, put, get-put}
use pytitect.EventSourcing.Store.{StoredEvent, EventStore, read_all, bad_limit, last_position}
use pytitect.EventSourcing.Pages.{Numbered, beyond}
use pytitect.Projections.Store.{
  key_eq, ProjectionState, RebuildRun, is_running, ProjectionStore, is_ahead, advanced_run, rebuilt,
  advance_found, advance_rebuild,
}
use pytitect.Projections.Runtime.{
  ProjectionDefinition, reduce_all, is_none, advance_or_raise, advance_reduced, resume_page,
  resume_found, resume_rebuild,
}
use pytitect.Projections.Prefix.{up_to, page_up_to}
use pytitect.Projections.Fold.{then_reduce, reduce_all-append}

module _ {J : Type 0} where
  -- What an advance that answers with a run has stored.
  pub record Advanced (run : RebuildRun J) (run_id : String) (state : J) (next_position : ℕ)
      (complete : Bool) (s : ProjectionStore J) (run' : RebuildRun J) (s' : ProjectionStore J)
      : Type 0 where
    pub made : run' ≡ advanced_run run state next_position complete
    pub kept : s'.rebuilds ≡ put run_id (advanced_run run state next_position complete) s.rebuilds
    pub published :
        s'.states
        ≡ (if complete then put run.key (rebuilt run state next_position) s.states else s.states)

  advance_found-Advanced :
      (run run' : RebuildRun J) (run_id : String) (expected : ℕ) (state : J) (next_position : ℕ)
      (complete : Bool) (s : ProjectionStore J)
      → (advance_found run run_id expected state next_position complete s).0 ≡ ok (some run')
      → Advanced run run_id state next_position complete s run'
          (advance_found run run_id expected state next_position complete s).1
  unfolding advance_found
  advance_found-Advanced run run' run_id expected state next_position complete s h =
      let Q = λ (r : Result (Option (RebuildRun J)) × ProjectionStore J).
        r.0 ≡ ok (some run') → Advanced run run_id state next_position complete s run' r.1 in
      if_either Q (not (is_running run.status) || not (run.next_position == expected))
        (λ e. absurd (cc e))
        (if_either Q
          (ltb next_position run.next_position
            || ltb run.through_position next_position
            || not (
                if complete
                then next_position == run.through_position
                else not (next_position == run.through_position)))
          (λ e. absurd (cc e))
          (if_either Q
            (complete && is_ahead (get run.key s.states) next_position run.projection_version)
            (λ e. absurd (cc e))
            (λ e. record { made = sym (some_of e); kept = refl; published = refl })))
        h
    where
      some_of : {a b : RebuildRun J} → ok (some a) ≡ ok (some b) → a ≡ b
      some_of e = cc e

  advance_rebuild_found :
      (run : RebuildRun J) (run_id : String) (expected : ℕ) (state : J) (next_position : ℕ)
      (complete : Bool) (s : ProjectionStore J)
      → get run_id s.rebuilds ≡ some run
      → advance_rebuild run_id expected state next_position complete s
        ≡ advance_found run run_id expected state next_position complete s
  unfolding advance_rebuild
  advance_rebuild_found run run_id expected state next_position complete s h = rw h refl

  advance_or_raise-ok :
      (r : Result (Option (RebuildRun J))) (run' : RebuildRun J)
      → advance_or_raise r ≡ ok run'
      → r ≡ ok (some run')
  advance_or_raise-ok (err e) run' h = absurd (cc h)
  advance_or_raise-ok (ok none) run' h = absurd (cc h)
  advance_or_raise-ok (ok (some x)) run' h = cc h

if_second {ℓ κ} :
    {A : Type ℓ} (P : A → Type κ) (b : Bool) (x : A) {y : A}
    → b ≡ false
    → P y
    → P (if b then x else y)
if_second P true x h p = absurd (cc h)
if_second P false x h p = p

module _ {J P : Type 0} (definition : ProjectionDefinition J P) where
  -- The run's state is what the reducer makes of the initial state by the events up to its position.
  pub record IsRebuilt (log : List (StoredEvent P)) (run : RebuildRun J) : Type 0 where
    pub reached : run.next_position ≤ length log
    pub folded :
        reduce_all definition (take run.next_position log) definition.initial_state ≡ ok run.state

  -- A step of a run: the run stays a fold and is stored, and once it is completed its state is the
  -- active one of its key.
  pub record Resumed (log : List (StoredEvent P)) (run run' : RebuildRun J) (run_id : String)
      (s' : ProjectionStore J) : Type 0 where
    pub folded : IsRebuilt log run'
    pub kept : get run_id s'.rebuilds ≡ some run'
    pub same : (run'.key ≡ run.key) × (run'.through_position ≡ run.through_position)
    pub active :
        let published : ProjectionState J = record {
          key = run.key;
          version = run.projection_version;
          checkpoint = run.through_position;
          state = run'.state;
        } in
        if is_running run'.status
        then Unit {0}
        else (get run.key s'.states ≡ some published) × (run'.next_position ≡ run.through_position)

  Advanced-Resumed :
      (log selected : List (StoredEvent P)) (run run' : RebuildRun J) (run_id : String) (state : J)
      (s s' : ProjectionStore J)
      → let np = last_position run.next_position selected in
        Advanced run run_id state np (np == run.through_position) s run' s'
        → np ≤ length log
        → reduce_all definition (take np log) definition.initial_state ≡ ok state
        → Resumed log run run' run_id s'
  Advanced-Resumed log selected run run' run_id state s s' adv le fold =
      let np = last_position run.next_position selected in
      rw adv.made (record {
        folded = record { reached = le; folded = fold };
        kept =
            rw
              (
                adv.kept,
                get-put s.rebuilds run_id run_id
                    (advanced_run run state np (np == run.through_position)),
                ==_refl run_id,
              )
              refl;
        same = (refl, refl);
        active = elim (Bool-cases (np == run.through_position)) [
          | inr more ↦ rw more tt
          | inl last ↦
              let there : np ≡ run.through_position =
                (ℕ_eq.beq_iff np run.through_position).0 last in
              rw last (
                rw
                    (
                      adv.published,
                      last,
                      get-put s.states run.key run.key (rebuilt run state np),
                      ==_refl run.key,
                    )
                    (ap (λ (p : ℕ). some (rebuilt run state p)) there),
                there,
              )
        ];
      })

  advance_reduced-Resumed :
      (log selected : List (StoredEvent P)) (run run' : RebuildRun J) (run_id : String)
      (r : Result J) (s : ProjectionStore J)
      → get run_id s.rebuilds ≡ some run
      → last_position run.next_position selected ≤ length log
      → reduce_all definition
          (take (last_position run.next_position selected) log)
          definition.initial_state
        ≡ r
      → (advance_reduced run run_id selected r s).0 ≡ ok run'
      → Resumed log run run' run_id (advance_reduced run run_id selected r s).1
  unfolding advance_reduced
  advance_reduced-Resumed log selected run run' run_id (err e) s there le fold h = absurd (cc h)
  advance_reduced-Resumed log selected run run' run_id (ok state) s there le fold h =
      let np = last_position run.next_position selected in
      let complete = np == run.through_position in
      let Q = λ (q : Result (RebuildRun J) × ProjectionStore J).
        q.0 ≡ ok run' → Resumed log run run' run_id q.1 in
      if_either Q (is_none selected && not complete) (λ e. absurd (cc e))
        (λ e. rw (advance_rebuild_found run run_id run.next_position state np complete s there) (
          Advanced-Resumed log selected run run' run_id state s
            (advance_found run run_id run.next_position state np complete s).1
            (advance_found-Advanced run run' run_id run.next_position state np complete s (
              advance_or_raise-ok (advance_found run run_id run.next_position state np complete s).0
                run'
                (rw (advance_rebuild_found run run_id run.next_position state np complete s there)
                  at e)))
            le fold))
        h

  resume_page-Resumed :
      (run_id : String) (es : EventStore P) (s : ProjectionStore J) (run run' : RebuildRun J)
      → get run_id s.rebuilds ≡ some run
      → Numbered 0 es.all_events
      → IsRebuilt es.all_events run
      → (resume_page run run_id definition (read_all run.next_position run.batch_size es) s).0
        ≡ ok run'
      → Resumed es.all_events run run' run_id
          (resume_page run run_id definition (read_all run.next_position run.batch_size es) s).1
  unfolding resume_page read_all
  resume_page-Resumed run_id es s run run' there n f h =
      let log = es.all_events in
      let selected =
        up_to run.through_position (take run.batch_size (beyond run.next_position log)) in
      let (a, le) =
        page_up_to run.batch_size run.through_position run.next_position log n f.reached in
      elim (Bool-cases (bad_limit run.batch_size es)) [
        | inl bad ↦ absurd (ground (arith, rw bad at h))
        | inr fine ↦ rw fine (
            advance_reduced-Resumed log selected run run' run_id
              (reduce_all definition selected run.state) s there le
              (ap (λ l. reduce_all definition l definition.initial_state) (sym a)
                ∙ reduce_all-append definition (take run.next_position log) selected
                    definition.initial_state
                ∙ ap (then_reduce definition selected) f.folded)
              (rw fine at h))
      ]

  resume_found-Resumed :
      (run_id : String) (es : EventStore P) (s : ProjectionStore J) (run run' : RebuildRun J)
      → get run_id s.rebuilds ≡ some run
      → not (is_running run.status) ≡ false
      → Numbered 0 es.all_events
      → IsRebuilt es.all_events run
      → (resume_found (some run) run_id definition es s).0 ≡ ok run'
      → Resumed es.all_events run run' run_id (resume_found (some run) run_id definition es s).1
  unfolding resume_found
  resume_found-Resumed run_id es s run run' there going n f h =
      let Q = λ (q : Result (RebuildRun J) × ProjectionStore J).
        q.0 ≡ ok run' → Resumed es.all_events run run' run_id q.1 in
      if_either Q (not (run.projection_version == definition.version)) (λ e. absurd (cc e))
        (if_second Q (not (is_running run.status)) (ok run, s) going
          (resume_page-Resumed run_id es s run run' there n f))
        h

  -- A step of a rebuild that is still running, on a log whose positions follow one another from 1, and
  -- that returns, continues the fold: the run that it returns is stored and holds the fold of the reducer
  -- up to its position; and if it is completed, its position is the watermark, and the state, version and
  -- position of the run are the active ones of its key.
  pub resume_rebuild-Resumed :
      (run_id : String) (es : EventStore P) (s : ProjectionStore J) (run run' : RebuildRun J)
      → get run_id s.rebuilds ≡ some run
      → is_running run.status ≡ true
      → Numbered 0 es.all_events
      → IsRebuilt es.all_events run
      → (resume_rebuild run_id definition es s).0 ≡ ok run'
      → Resumed es.all_events run run' run_id (resume_rebuild run_id definition es s).1
  unfolding resume_rebuild
  resume_rebuild-Resumed run_id es s run run' there going n f h =
      rw there (resume_found-Resumed run_id es s run run' there (rw going refl) n f (rw there at h))
