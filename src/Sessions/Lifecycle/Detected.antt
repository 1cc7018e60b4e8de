-- ===== src/Sessions/Lifecycle/Detected.antt =====
-- When a detected replay is sure to be raised.
use workflow_forge.Audit
use workflow_forge.Sessions.Session
use workflow_forge.Sessions.Repository
use workflow_forge.Base.{
  ℕ, ◌≢◌, if◌then◌else◌, List, ◌≡◌, is_some, true, ok, ◌≤◌, Bool-cases, Bool, arith, some, ap, not,
  inl, any, sym, ◌==◌, inr, ◌&&◌, ◌∙◌, is_none, false, map, refl, Option, err, none,
  refresh_token_replay, ◌∷◌,
}
use workflow_forge.Transaction.{
  gets, Action, lift, Tx, change, ◌>>=◌, continue, pure, run, commit, raise,
}
use workflow_forge.Sessions.Store.{
  session_check, Store, write_session, revoke_current_refresh_tokens, update_tokens, find_session,
  token_check, put_session, append_event, find_token,
}
use workflow_forge.Sessions.Session.{session_from_record, AuthSession}
use workflow_forge.Time.{DateTime, instant, utc, normalize}
use workflow_forge.Sessions.Session.Laws.{
  WellFormed, post_init-of_WellFormed, revoke-of_WellFormed, revoked-WellFormed,
}
use workflow_forge.Sessions.Token.{RefreshToken, token_from_record}
use workflow_forge.Identity.Validation.{validate_uuid-ne_zero}
use workflow_forge.Sessions.Lifecycle.{
  record_event, session_event, detect_replay, refresh_session, or_rollback_unless_replay, Ports,
  Draw,
}
use workflow_forge.Audit.{
  AuditEventType, AuditOutcome, append, AuditEvent, session_refresh_replay_detected,
  replay_detected, session_revoked, success,
}
use workflow_forge.Text.{Text}
use workflow_forge.Sessions.Claims.{clock_instant}
use workflow_forge.Sessions.Store.Tables.{is_spent}
use workflow_forge.Sessions.Lifecycle.Refused.{token_from_record-eq-ok}

>>=-runs :
    {A B : Type 0} (m : Action Store A) (f : A → Action Store B) {a : A} {tx mid : Tx Store}
    → m tx ≡ (ok a, mid)
    → (m >>= f) tx ≡ f a mid
>>=-runs m f h = ap (λ p. continue p.0 f p.1) h

session_check-WellFormed : (x : AuthSession) → WellFormed x → session_check x ≡ true
unfolding session_check
session_check-WellFormed x h = ground arith

-- A revocation at `at` would break the check constraint of a token that it rewrites.
abbrev pub blocks_sweep : ℕ → DateTime → List RefreshToken → Bool
blocks_sweep i at ts =
    any
      (λ t.
        (t.session_id == i && is_none t.used_at && is_none t.revoked_at)
        && not (token_check (record t { revoked_at = some at })))
      ts

session_from_record-of_WellFormed :
    (x : AuthSession) → x.id ≢ 0 → WellFormed x → session_from_record x ≡ ok x
unfolding session_from_record
session_from_record-of_WellFormed x n h =
    simp (validate_uuid-ne_zero x.id n, post_init-of_WellFormed x h)

revoked : AuthSession → ℕ → AuthSession
revoked x t =
    if is_some x.revoked_at then x else record x { updated_at = utc t; revoked_at = some (utc t) }

revoke-eq-revoked :
    (x : AuthSession) (t : ℕ)
    → WellFormed x
    → instant x.created_at ≤ t
    → (Session.revoke x (utc t) ≡ ok (revoked x t))
      × WellFormed (revoked x t)
      × ((revoked x t).id ≡ x.id)
unfolding revoked
revoke-eq-revoked x t h late = elim (Bool-cases (is_some x.revoked_at)) [
  | inl r ↦ (ground (arith, revoke-of_WellFormed x t h late), ground arith, ground arith)
  | inr r ↦ (
    ground (arith, revoke-of_WellFormed x t h late),
    ground (arith, revoked-WellFormed x t h late),
    ground arith,
  )
]

-- A validated session is revoked at a time that is not before its creation.
revoke-runs :
    (i t : ℕ) (tx : Tx Store) (x : AuthSession)
    → find_session i tx.working.sessions ≡ some x
    → x.id ≢ 0
    → WellFormed x
    → instant x.created_at ≤ t
    → blocks_sweep i (utc t) tx.working.tokens ≡ false
    → (y : AuthSession) × (tx' : Tx Store) × (Repository.revoke i (utc t) tx ≡ (ok y, tx'))
      × (tx'.working.events ≡ tx.working.events)
unfolding Repository.revoke gets lift change write_session revoke_current_refresh_tokens
    update_tokens
revoke-runs i t tx x found n h late sweep =
    let (made, formed, same) = revoke-eq-revoked x t h late in
    let checked = session_check-WellFormed (revoked x t) formed in
    let read = session_from_record-of_WellFormed x n h in
    let again = session_from_record-of_WellFormed (revoked x t) (λ e. n (sym same ∙ e)) formed in
    let swept =
      map
        (λ t'.
          if t'.session_id == i && is_none t'.used_at && is_none t'.revoked_at
          then record t' { revoked_at = some (utc t) }
          else t')
        tx.working.tokens in
    let done : Tx Store = record tx {
      working = record tx.working {
        sessions = put_session (revoked x t) tx.working.sessions;
        tokens = swept;
      };
    } in
    (revoked x t, done, simp (found, read, made, checked, sweep, again), refl)

-- What `session_event` builds.
abbrev built : (id : ℕ) → AuditEventType → AuditOutcome → (t : ℕ) → Option ℕ → (i : ℕ) → AuditEvent
built id e o t actor i = record {
  id = id;
  event_type = e;
  outcome = o;
  occurred_at = utc t;
  actor_user_id = actor;
  organization_id = none;
  session_id = some i;
}

abbrev recorded : AuditEvent → Tx Store → Tx Store
recorded event tx = record tx { working = record tx.working { events = event ∷ tx.working.events } }

-- An event with a new identifier is recorded.
record_event-runs :
    (b : Bool) (id : ℕ) (e : AuditEventType) (o : AuditOutcome) (t : ℕ) (actor : Option ℕ) (i j : ℕ)
    (tx : Tx Store)
    → any (λ x. x.id == id) tx.working.events ≡ false
    → any (λ x. x.id == j) tx.working.events ≡ false
    → (id == j) ≡ false
    → (tx' : Tx Store) × (record_event b (session_event id e o t actor i) tx ≡ (ok tt, tx'))
      × (any (λ x. x.id == j) tx'.working.events ≡ false)
unfolding record_event pure lift change append_event append Audit.create normalize
record_event-runs false id e o t actor i j tx new next other = (tx, refl, next)
record_event-runs true id e o t actor i j tx new next other =
    (recorded (built id e o t actor i) tx, simp new, ground arith)

record_event-again :
    (b : Bool) (id : ℕ) (e : AuditEventType) (o : AuditOutcome) (t : ℕ) (actor : Option ℕ) (i : ℕ)
    (tx : Tx Store)
    → any (λ x. x.id == id) tx.working.events ≡ false
    → (tx' : Tx Store) × (record_event b (session_event id e o t actor i) tx ≡ (ok tt, tx'))
unfolding record_event pure lift change append_event append Audit.create normalize
record_event-again false id e o t actor i tx new = (tx, refl)
record_event-again true id e o t actor i tx new = (recorded (built id e o t actor i) tx, simp new)

detect_replay-runs :
    (ports : Ports) (draw : Draw) (t : ℕ) (current : RefreshToken) (tx : Tx Store) (x : AuthSession)
    → find_session current.session_id tx.working.sessions ≡ some x
    → x.id ≢ 0
    → WellFormed x
    → instant x.created_at ≤ t
    → blocks_sweep current.session_id (utc t) tx.working.tokens ≡ false
    → any (λ e. e.id == draw.uuid 0) tx.working.events ≡ false
    → any (λ e. e.id == draw.uuid 1) tx.working.events ≡ false
    → (draw.uuid 0 == draw.uuid 1) ≡ false
    → (detect_replay ports draw t current tx).0 ≡ err refresh_token_replay
unfolding detect_replay commit raise
detect_replay-runs ports draw t current tx x found set formed late sweep new next other =
    let i = current.session_id in
    let (y, a, revoked_ok, events) = revoke-runs i t tx x found set formed late sweep in
    let new' = ap (any (λ e. e.id == draw.uuid 0)) events ∙ new in
    let next' = ap (any (λ e. e.id == draw.uuid 1)) events ∙ next in
    let (b, first, next'') =
      record_event-runs ports.audited (draw.uuid 0) session_refresh_replay_detected replay_detected
        t none i (draw.uuid 1) a new' next' other in
    let (c, second) =
      record_event-again ports.audited (draw.uuid 1) session_revoked success t none i b next'' in
    ap (λ p. p.0)
      (>>=-runs (Repository.revoke i (utc t)) _ revoked_ok
        ∙ >>=-runs (record_event ports.audited _) _ first
        ∙ >>=-runs (record_event ports.audited _) _ second)

refresh_session-runs :
    (ports : Ports) (draw : Draw) (token : Text) (tx : Tx Store) (row current : RefreshToken)
    (t : ℕ)
    → clock_instant draw.now ≡ ok t
    → find_token (ports.digest_token token) tx.working.tokens ≡ some row
    → token_from_record row ≡ ok current
    → is_spent current ≡ true
    → (detect_replay ports draw t current tx).0 ≡ err refresh_token_replay
    → (refresh_session ports draw token tx).0 ≡ err refresh_token_replay
unfolding refresh_session or_rollback_unless_replay lift Repository.get_refresh_token_by_digest gets
refresh_session-runs ports draw token tx row current t clock found read spent raised =
    simp (clock, found, read, spent, raised)

-- Presenting a used refresh token raises the replay when the clock and the rows are sound: the rows
-- of the token and of its session are validated, the session was not created after the time of the
-- call, no token of the session forbids a revocation at that time, and the two identifiers that are
-- drawn for the audit events are new and distinct.
pub replay_is_detected :
    (ports : Ports) (draw : Draw) (token : Text) (s : Store) (row current : RefreshToken)
    (x : AuthSession) (t : ℕ)
    → clock_instant draw.now ≡ ok t
    → find_token (ports.digest_token token) s.tokens ≡ some row
    → token_from_record row ≡ ok current
    → is_spent row ≡ true
    → find_session row.session_id s.sessions ≡ some x
    → x.id ≢ 0
    → WellFormed x
    → instant x.created_at ≤ t
    → blocks_sweep row.session_id (utc t) s.tokens ≡ false
    → any (λ e. e.id == draw.uuid 0) s.events ≡ false
    → any (λ e. e.id == draw.uuid 1) s.events ≡ false
    → (draw.uuid 0 == draw.uuid 1) ≡ false
    → (run (refresh_session ports draw token) s).0 ≡ err refresh_token_replay
unfolding run
replay_is_detected ports draw token s row current x t clock found read spent session set formed late
      sweep new next other =
    let tx : Tx Store = record { committed = s; working = s } in
    let (same, _, _, spent', _, _, _) = token_from_record-eq-ok row current read in
    refresh_session-runs ports draw token tx row current t clock found read (spent' ∙ spent) (
      detect_replay-runs ports draw t current tx x
        (ap (λ i. find_session i s.sessions) same ∙ session) set formed late
        (ap (λ i. blocks_sweep i (utc t) s.tokens) same ∙ sweep) new next other)
