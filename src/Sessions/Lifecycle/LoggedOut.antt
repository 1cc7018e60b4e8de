-- ===== src/Sessions/Lifecycle/LoggedOut.antt =====
-- The effect of a logout and of a detected replay, and that no later call takes it back.
use workflow_forge.Sessions.Repository
use workflow_forge.Base.{
  Bool, Result, ℕ, ◌≡◌, List, true, ok, is_ok, some, false, ◌∷◌, ap, ◌∙◌, or_raise, raise_if, not,
  some-injective, ◌==◌, sym,
}
use workflow_forge.Sessions.Lifecycle.{
  logout_session, Ports, Draw, record_event, refresh_session, verify_access_token,
}
use workflow_forge.Transaction.{run, Tx}
use workflow_forge.Sessions.Lifecycle.Trace.{
  perform_all, perform, Call, logout, refresh, perform_all-Extends,
}
use workflow_forge.Audit.{AuditEvent}
use workflow_forge.Text.{Text}
use workflow_forge.Sessions.Store.{Store, find_token}
use workflow_forge.Time.{DateTime, utc}
use workflow_forge.Sessions.Token.{RefreshToken}
use workflow_forge.Sessions.Store.Tables.{is_closed}
use workflow_forge.Sessions.Claims.{TokenPair, AccessTokenClaims, clock_instant}
use workflow_forge.Transaction.Returns.{or_rollback-returns, lift-then, returned, commit-returns}
use workflow_forge.Sessions.Lifecycle.Refused.{
  verify_access_token-of_closed, refused, token_from_record-eq-ok, find_active-of_closed,
}
use workflow_forge.Sessions.Lifecycle.Refresh.{
  record_event-returns, refresh_session-of_spent, refresh_session-returns, rotate-returns,
}
use workflow_forge.Transaction.Rules.{>>=-returns}
use workflow_forge.Sessions.Lifecycle.Guarantees.{revoke-returns}
use workflow_forge.Sessions.Lifecycle.Rotation.{refresh_session-spends}

pub is_closed-of_record_event :
    (b : Bool) (e : Result AuditEvent) (i : ℕ) (tx : Tx Store) {tx' : Tx Store} {u : Unit {0}}
    → record_event b e tx ≡ (ok u, tx')
    → is_closed i tx.working.sessions ≡ true
    → is_closed i tx'.working.sessions ≡ true
is_closed-of_record_event b e i tx h c =
    let (_, sessions) = record_event-returns b e tx h in ap (is_closed i) sessions ∙ c

-- A logout that returns has closed the session.
pub logout_session-closes :
    (ports : Ports) (draw : Draw) (u i : ℕ) (tx tx' : Tx Store)
    → logout_session ports draw u i tx ≡ (ok tt, tx')
    → is_closed i tx'.committed.sessions ≡ true
unfolding logout_session Repository.get_by_id
logout_session-closes ports draw u i tx tx' h =
    let h = or_rollback-returns _ h in
    let (found, a, looked, h) = >>=-returns (Repository.get_by_id i) _ tx h in
    let (session, _, h) = lift-then (or_raise found _) _ h in
    let (_, _, h) = lift-then (raise_if (not (session.user_id == u)) _) _ h in
    let (t, _, h) = lift-then (clock_instant draw.now) _ h in
    let (x, b, revoked, h) = >>=-returns (Repository.revoke i (utc t)) _ a h in
    let (_, c, recorded, h) = >>=-returns (record_event ports.audited _) _ b h in
    let (closed, _) = revoke-returns i (utc t) a b x revoked in
    ap (λ t. is_closed i t.committed.sessions) (commit-returns c h)
    ∙ is_closed-of_record_event ports.audited _ i b recorded closed

-- A refresh token of a closed session is refused.
pub refresh_session-of_closed :
    (ports : Ports) (draw : Draw) (token : Text) (tx : Tx Store) (row : RefreshToken)
    → find_token (ports.digest_token token) tx.working.tokens ≡ some row
    → is_closed row.session_id tx.working.sessions ≡ true
    → is_ok (refresh_session ports draw token tx).0 ≡ false
refresh_session-of_closed ports draw token tx row found closed =
    refused (refresh_session ports draw token) tx λ p tx' h.
      let r = refresh_session-returns ports draw token tx p tx' h in
      let q = rotate-returns ports draw r.time _ r.current tx tx' p r.rotated in
      let (session, _, _, _, _, _, _) = token_from_record-eq-ok r.row r.current r.read in
      let same : r.row ≡ row = some-injective (sym r.found ∙ found) in
      find_active-of_closed r.current.session_id (utc r.time) tx.working.sessions
        (ap (λ i. is_closed i tx.working.sessions) (session ∙ ap (λ x. x.session_id) same) ∙ closed)
        q.active

-- Neither an access token nor a refresh token of the session is accepted.
pub record IsShut (ports : Ports) (i : ℕ) (s : Store) : Type 0 where
  pub access :
      (now : DateTime) (x : AccessTokenClaims)
      → x.session_id ≡ i
      → is_ok (run (verify_access_token now (ok x)) s).0 ≡ false
  pub refresh :
      (draw : Draw) (token : Text) (row : RefreshToken)
      → find_token (ports.digest_token token) s.tokens ≡ some row
      → row.session_id ≡ i
      → is_ok (run (refresh_session ports draw token) s).0 ≡ false

pub IsShut-of_closed :
    (ports : Ports) (i : ℕ) (s : Store) → is_closed i s.sessions ≡ true → IsShut ports i s
unfolding run
IsShut-of_closed ports i s closed = record {
  access = λ now x same.
      verify_access_token-of_closed now x (record { committed = s; working = s })
        (ap (λ i. is_closed i s.sessions) same ∙ closed);
  refresh = λ draw token row found same.
      refresh_session-of_closed ports draw token (record { committed = s; working = s }) row found
        (ap (λ i. is_closed i s.sessions) same ∙ closed);
}

-- After a logout that returns, and after any further calls, whether they return or raise, no access
-- token of the session is accepted at any time, and no refresh token of it can be refreshed.
pub logged_out_forever :
    (ports : Ports) (draw : Draw) (u i : ℕ) (s : Store) (calls : List Call)
    → (run (logout_session ports draw u i) s).0 ≡ ok tt
    → IsShut ports i (perform_all ports (logout draw u i ∷ calls) s)
unfolding run perform_all perform
logged_out_forever ports draw u i s calls h =
    let tx : Tx Store = record { committed = s; working = s } in
    let tx' = (logout_session ports draw u i tx).1 in
    IsShut-of_closed ports i _ (
      (perform_all-Extends ports calls tx'.committed).closed i
        (logout_session-closes ports draw u i tx tx' (returned _ h)))

-- A refresh token that has been refreshed with once is refused for ever: after a refresh that
-- returns and any further calls, whether they return or raise, refreshing with it raises.
pub refreshed_once :
    (ports : Ports) (draw again : Draw) (token : Text) (s : Store) (pair : TokenPair)
    (calls : List Call)
    → (run (refresh_session ports draw token) s).0 ≡ ok pair
    → is_ok
        (run
          (refresh_session ports again token)
          (perform_all ports (refresh draw token ∷ calls) s)).0
      ≡ false
unfolding run perform_all perform
refreshed_once ports draw again token s pair calls h =
    let tx : Tx Store = record { committed = s; working = s } in
    let tx' = (refresh_session ports draw token tx).1 in
    refresh_session-of_spent ports again token _ (
      (perform_all-Extends ports calls tx'.committed).spent (ports.digest_token token)
        (refresh_session-spends ports draw token tx tx' pair (returned _ h)))
