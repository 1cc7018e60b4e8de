-- ===== src/Sessions/Lifecycle/Atomic.antt =====
-- A use case that raises leaves the stored state as it was, but for a detected replay.
use workflow_forge.Sessions.Token
use workflow_forge.Sessions.Repository.{
  get_active_by_id, get_refresh_token_by_digest, revoke, get_by_id, rotate_refresh_token,
  revoke_all_for_user, add,
}
use workflow_forge.Sessions.Lifecycle.{
  record_event, logout_session, Ports, Draw, logout_all_sessions, start_user_session,
  refresh_session, detect_replay, rotate, or_rollback_unless_replay, refresh_failure,
}
use workflow_forge.Transaction.Rules.{
  careful_rules, Quiet, Careful, quiet_rules, Careful-commit-lift, CarefulBut, Careful-bind,
  CarefulBut-bind, Quiet-lift, Careful-CarefulBut, run-Careful, CarefulBut-commit-raise,
  Careful-lift-bind,
}
use workflow_forge.Sessions.Session.{AuthSession}
use workflow_forge.Base.{
  Bool, ℕ, Result, true, false, ◌≡◌, Option, ok, is_ok, refl, Error, refresh_token_replay,
  >>=-eq-ok, if◌then◌else◌, raise_if, err, ◌∙◌, ◌≢◌, ◌==◌,
}
use workflow_forge.Time.{DateTime, normalize, utc, IsUtc, IsUtc-eq, instant}
use workflow_forge.Sessions.Token.{RefreshToken, replacement}
use workflow_forge.Audit.{AuditEvent}
use workflow_forge.Sessions.Claims.{token_pair}
use workflow_forge.Text.{Text}
use workflow_forge.Transaction.{run, Tx, Action}
use workflow_forge.Sessions.Store.{Store}
use workflow_forge.Sessions.Token.Laws.{token-post_init-WellFormed}

pub Quiet-revoke : (i : ℕ) (at : DateTime) → Quiet (revoke i at)
unfolding revoke
Quiet-revoke i at = search quiet_rules depth 12

pub Quiet-get_by_id : (i : ℕ) → Quiet (get_by_id i)
unfolding get_by_id
Quiet-get_by_id i = search quiet_rules

pub Quiet-get_active_by_id : (i : ℕ) (at : DateTime) → Quiet (get_active_by_id i at)
unfolding get_active_by_id
Quiet-get_active_by_id i at = search quiet_rules

pub Quiet-get_refresh_token_by_digest : (d : ℕ) → Quiet (get_refresh_token_by_digest d)
unfolding get_refresh_token_by_digest
Quiet-get_refresh_token_by_digest d = search quiet_rules

pub Quiet-add : (x : AuthSession) (t : RefreshToken) → Quiet (add x t)
unfolding add
Quiet-add x t = search quiet_rules

pub Quiet-revoke_all_for_user : (u : ℕ) (at : DateTime) → Quiet (revoke_all_for_user u at)
unfolding revoke_all_for_user
Quiet-revoke_all_for_user u at = search quiet_rules depth 8

pub Quiet-rotate_refresh_token :
    (i d g : ℕ) (t : RefreshToken) (at : DateTime) → Quiet (rotate_refresh_token i d g t at)
unfolding rotate_refresh_token
Quiet-rotate_refresh_token i d g t at = search quiet_rules depth 8

pub Quiet-record_event : (b : Bool) (e : Result AuditEvent) → Quiet (record_event b e)
unfolding record_event
Quiet-record_event true e = search quiet_rules
Quiet-record_event false e = search quiet_rules

ruleset repository_rules = (
  careful_rules, Quiet-revoke, Quiet-get_by_id, Quiet-get_active_by_id,
  Quiet-get_refresh_token_by_digest, Quiet-add, Quiet-revoke_all_for_user,
  Quiet-rotate_refresh_token, Quiet-record_event,
)

logout_session-Careful :
    (ports : Ports) (draw : Draw) (u i : ℕ) → Careful (logout_session ports draw u i)
unfolding logout_session
logout_session-Careful ports draw u i = search repository_rules depth 14

logout_all_sessions-Careful :
    (ports : Ports) (draw : Draw) (u : ℕ) (i : Option ℕ)
    → Careful (logout_all_sessions ports draw u i)
unfolding logout_all_sessions
logout_all_sessions-Careful ports draw u i = search repository_rules depth 14

token_pair-is_ok :
    (a r : Text) (i t u : ℕ)
    → is_ok (
        token_pair (record {
          access_token = a;
          refresh_token = r;
          session_id = i;
          access_token_expires_at = utc t;
          refresh_token_expires_at = utc u;
        }))
      ≡ true
unfolding token_pair normalize
token_pair-is_ok a r i t u = refl

start_user_session-Careful :
    (ports : Ports) (draw : Draw) (authenticated : Result ℕ)
    → Careful (start_user_session ports draw authenticated)
unfolding start_user_session
start_user_session-Careful ports draw authenticated =
    search (repository_rules, Careful-commit-lift, token_pair-is_ok) depth 24

replacement-IsUtc :
    (x : RefreshToken) (i d : ℕ) (a b : DateTime) {t : RefreshToken}
    → Token.replacement x i d a b ≡ ok t
    → IsUtc t.expires_at
unfolding Token.replacement
replacement-IsUtc x i d a b {t} h =
    let (_, _, h) = >>=-eq-ok (raise_if (d == x.token_digest) _) _ h in
    (token-post_init-WellFormed _ t h).expires_utc

token_pair-is_ok-utc :
    (a r : Text) (i t : ℕ) (d : DateTime)
    → IsUtc d
    → is_ok (
        token_pair (record {
          access_token = a;
          refresh_token = r;
          session_id = i;
          access_token_expires_at = utc t;
          refresh_token_expires_at = d;
        }))
      ≡ true
token_pair-is_ok-utc a r i t d h = rw (IsUtc-eq d h) (token_pair-is_ok a r i t (instant d))

rotate-Careful :
    (ports : Ports) (draw : Draw) (t digest : ℕ) (current : RefreshToken)
    → Careful (rotate ports draw t digest current)
unfolding rotate
rotate-Careful ports draw t digest current = Careful-bind _ _ (Quiet-lift _) λ _.
    Careful-bind _ _ (Quiet-lift _) λ expired. Careful-bind _ _ (Quiet-lift _) λ _.
      Careful-bind _ _ (Quiet-get_active_by_id current.session_id (utc t)) λ found.
        Careful-bind _ _ (Quiet-lift _) λ session. Careful-bind _ _ (Quiet-lift _) λ replacement_id.
          Careful-lift-bind _ _ λ replacement e.
            let u = replacement-IsUtc current _ _ _ _ e in
            Careful-bind _ _ (Quiet-lift _) λ access.
              Careful-bind _ _ (Quiet-rotate_refresh_token _ _ _ _ _) λ _.
                Careful-bind _ _ (Quiet-record_event _ _)
                  λ _. Careful-commit-lift _ (token_pair-is_ok-utc _ _ _ _ _ u)

detect_replay-CarefulBut :
    (ports : Ports) (draw : Draw) (t : ℕ) (current : RefreshToken)
    → CarefulBut refresh_token_replay (detect_replay ports draw t current)
unfolding detect_replay
detect_replay-CarefulBut ports draw t current =
    search (CarefulBut-bind, CarefulBut-commit-raise, repository_rules) depth 12

pub refresh_failure_committed :
    {A : Type 0} (r : Result A) (tx : Tx Store) → (refresh_failure r tx).committed ≡ tx.committed
refresh_failure_committed (ok a) tx = refl
refresh_failure_committed (err refresh_token_replay) tx = refl
refresh_failure_committed (err _) tx = refl

CarefulBut-or_rollback_unless_replay :
    {A : Type 0} (x : Error) (m : Action Store A)
    → CarefulBut x m
    → CarefulBut x (or_rollback_unless_replay m)
unfolding or_rollback_unless_replay
CarefulBut-or_rollback_unless_replay x m c = record {
  at = λ tx e h n. refresh_failure_committed (m tx).0 (m tx).1 ∙ c.at tx e h n;
}

refresh_branch-CarefulBut :
    (ports : Ports) (draw : Draw) (t digest : ℕ) (current : RefreshToken) (b : Bool)
    → CarefulBut refresh_token_replay
        (if b then detect_replay ports draw t current else rotate ports draw t digest current)
refresh_branch-CarefulBut ports draw t digest current true =
    detect_replay-CarefulBut ports draw t current
refresh_branch-CarefulBut ports draw t digest current false =
    Careful-CarefulBut refresh_token_replay (rotate-Careful ports draw t digest current)

refresh_session-CarefulBut :
    (ports : Ports) (draw : Draw) (token : Text)
    → CarefulBut refresh_token_replay (refresh_session ports draw token)
unfolding refresh_session
refresh_session-CarefulBut ports draw token =
    search
      (
        CarefulBut-or_rollback_unless_replay, CarefulBut-bind, refresh_branch-CarefulBut,
        repository_rules,
      )
      depth 14

-- When starting a session or logging out raises, the stored state is the one before the call.
pub login_logout_atomic :
    (ports : Ports) (draw : Draw) (s : Store) (e : Error)
    → ((authenticated : Result ℕ)
        → (run (start_user_session ports draw authenticated) s).0 ≡ err e
        → (run (start_user_session ports draw authenticated) s).1 ≡ s)
      × ((u i : ℕ)
          → (run (logout_session ports draw u i) s).0 ≡ err e
          → (run (logout_session ports draw u i) s).1 ≡ s)
      × ((u : ℕ) (i : Option ℕ)
          → (run (logout_all_sessions ports draw u i) s).0 ≡ err e
          → (run (logout_all_sessions ports draw u i) s).1 ≡ s)
login_logout_atomic ports draw s e = (
  λ a h. run-Careful _ s (start_user_session-Careful ports draw a) h,
  λ u i h. run-Careful _ s (logout_session-Careful ports draw u i) h,
  λ u i h. run-Careful _ s (logout_all_sessions-Careful ports draw u i) h,
)

-- When a refresh raises anything but a detected replay, the stored state is the one before the
-- call.
pub refresh_session_atomic :
    (ports : Ports) (draw : Draw) (token : Text) (s : Store) (e : Error)
    → (run (refresh_session ports draw token) s).0 ≡ err e
    → e ≢ refresh_token_replay
    → (run (refresh_session ports draw token) s).1 ≡ s
unfolding run
refresh_session_atomic ports draw token s e h n =
    (refresh_session-CarefulBut ports draw token).at (record { committed = s; working = s }) e h n
