-- ===== src/Sessions/Lifecycle/Refresh.antt =====
-- What a refresh that returns has found, and the tokens that it refuses.
use workflow_forge.Sessions.Token
use workflow_forge.Sessions.Repository
use workflow_forge.Base.{
  ℕ, Bool, List, Result, ◌≡◌, if◌then◌else◌, some, true, ok, arith, is_ok, false, refl, raise_if,
  is_some, sym, ◌∙◌, raise_if-eq-ok, expired_refresh_token, ok-injective,
}
use workflow_forge.Sessions.Lifecycle.{
  Ports, detect_replay, refresh_session, record_event, rotate, Draw, refresh_expiry, access_claims,
}
use workflow_forge.Sessions.Store.Tables.{is_token, is_spent, is_revoked}
use workflow_forge.Sessions.Token.{RefreshToken, token_from_record}
use workflow_forge.Transaction.{raise, Tx, lift, commit, change, or_rollback, ◌>>=◌}
use workflow_forge.Time.{DateTime, utc, normalize, at_or_before}
use workflow_forge.Text.{Text}
use workflow_forge.Audit.{AuditEvent}
use workflow_forge.Sessions.Store.{find_token, Store, insert_token, consume_token, append_event}
use workflow_forge.Sessions.Claims.{TokenPair, clock_instant}
use workflow_forge.Sessions.Session.{AuthSession, session_from_record}
use workflow_forge.Sessions.Repository.{find_active}
use workflow_forge.Transaction.Rules.{>>=-returns}
use workflow_forge.Sessions.Lifecycle.Refused.{
  or_rollback_unless_replay-returns, refused, token_from_record-eq-ok,
  get_refresh_token_by_digest-then, get_active_by_id-then,
}
use workflow_forge.Transaction.Returns.{
  lift-returns, change-returns, or_rollback-returns, pure-returns, commit-returns, lift-then,
}
use workflow_forge.Sessions.Store.Changes.{append_event-eq-ok}
use workflow_forge.Identity.Validation.{typed_id}

-- A refresh that returns has found a token that is not spent, and has rotated it.
pub record Rotated (ports : Ports) (draw : Draw) (token : Text) (tx : Tx Store) (pair : TokenPair)
    (tx' : Tx Store) : Type 0 where
  pub time : ℕ
  pub row : RefreshToken
  pub current : RefreshToken
  pub found : find_token (ports.digest_token token) tx.working.tokens ≡ some row
  pub read : token_from_record row ≡ ok current
  pub unspent : is_spent current ≡ false
  pub rotated : rotate ports draw time (ports.digest_token token) current tx ≡ (ok pair, tx')

-- The branch for a used token never returns.
detect_replay-raises :
    (ports : Ports) (draw : Draw) (t : ℕ) (current : RefreshToken) (tx : Tx Store) {p : TokenPair}
    {tx' : Tx Store}
    → detect_replay ports draw t current tx ≡ (ok p, tx')
    → true ≡ false
unfolding detect_replay raise
detect_replay-raises ports draw t current tx h =
    let (_, a, _, h) = >>=-returns (Repository.revoke current.session_id (utc t)) _ tx h in
    let (_, b, _, h) = >>=-returns (record_event ports.audited _) _ a h in
    let (_, c, _, h) = >>=-returns (record_event ports.audited _) _ b h in
    let (_, d, _, h) = >>=-returns commit _ c h in cc

refresh_branch-returns :
    (ports : Ports) (draw : Draw) (t digest : ℕ) (current : RefreshToken) (b : Bool)
    (tx tx' : Tx Store) (p : TokenPair)
    → (if b then detect_replay ports draw t current else rotate ports draw t digest current) tx
      ≡ (ok p, tx')
    → (b ≡ false) × (rotate ports draw t digest current tx ≡ (ok p, tx'))
refresh_branch-returns ports draw t digest current true tx tx' p h =
    let never = detect_replay-raises ports draw t current tx h in cc
refresh_branch-returns ports draw t digest current false tx tx' p h = (refl, h)

pub refresh_session-returns :
    (ports : Ports) (draw : Draw) (token : Text) (tx : Tx Store) (p : TokenPair) (tx' : Tx Store)
    → refresh_session ports draw token tx ≡ (ok p, tx')
    → Rotated ports draw token tx p tx'
unfolding refresh_session
refresh_session-returns ports draw token tx p tx' h =
    let h = or_rollback_unless_replay-returns _ h in
    let (t, _, h) = lift-then (clock_instant draw.now) _ h in
    let (row, current, found, read, h) =
      get_refresh_token_by_digest-then (ports.digest_token token) _ _ h in
    let (unspent, h) =
      refresh_branch-returns ports draw t _ current (is_spent current) tx tx' p h in
    record {
      time = t;
      row = row;
      current = current;
      found = found;
      read = read;
      unspent = unspent;
      rotated = h;
    }

is_token-of_found :
    (p : RefreshToken → Bool) (d : ℕ) (ts : List RefreshToken) (row : RefreshToken)
    → find_token d ts ≡ some row
    → is_token p d ts ≡ p row
unfolding is_token
is_token-of_found p d ts row h = ground arith

-- A token that is spent is refused.
pub refresh_session-of_spent :
    (ports : Ports) (draw : Draw) (token : Text) (tx : Tx Store)
    → is_token is_spent (ports.digest_token token) tx.working.tokens ≡ true
    → is_ok (refresh_session ports draw token tx).0 ≡ false
refresh_session-of_spent ports draw token tx spent =
    refused (refresh_session ports draw token) tx λ p tx' h.
      let r = refresh_session-returns ports draw token tx p tx' h in
      let (_, _, _, same, _, _, _) = token_from_record-eq-ok r.row r.current r.read in
      let here = is_token-of_found is_spent _ tx.working.tokens r.row r.found in
      sym spent ∙ here ∙ sym same ∙ r.unspent

pub record_event-returns :
    (b : Bool) (e : Result AuditEvent) (tx : Tx Store) {tx' : Tx Store} {u : Unit {0}}
    → record_event b e tx ≡ (ok u, tx')
    → (tx'.working.tokens ≡ tx.working.tokens) × (tx'.working.sessions ≡ tx.working.sessions)
unfolding record_event
record_event-returns true e tx h =
    let (event, mid, l, k) = >>=-returns (lift e) (λ x. change (append_event x)) tx h in
    let (_, mid_eq) = lift-returns e l in
    let (s, s_eq, end) = change-returns (append_event event) k in
    let (tokens, sessions) = append_event-eq-ok event mid.working s s_eq in (cc, cc)
record_event-returns false e tx h = let (_, same) = pure-returns tt h in (cc, cc)

-- What a rotation that returns has found and done.
pub record Replaced (ports : Ports) (draw : Draw) (t digest : ℕ) (current : RefreshToken)
    (tx tx' : Tx Store) : Type 0 where
  pub session : AuthSession
  pub row : AuthSession
  pub active : find_active current.session_id (utc t) tx.working.sessions ≡ some row
  pub read : session_from_record row ≡ ok session
  pub unrevoked : is_revoked current ≡ false
  pub unexpired : at_or_before current.expires_at (utc t) ≡ false
  pub replacement : RefreshToken
  pub id : ℕ
  pub replaced :
      Token.replacement current id
        (ports.digest_token draw.token)
        (utc t)
        (refresh_expiry ports t session)
      ≡ ok replacement
  pub inserted : Store
  pub inserts : insert_token replacement tx.working ≡ ok inserted
  pub consumed_in : Store
  pub consumes :
      consume_token session.id digest current.generation replacement.id (utc t) inserted
      ≡ ok consumed_in
  pub tokens : tx'.committed.tokens ≡ consumed_in.tokens
  pub sessions : tx'.committed.sessions ≡ consumed_in.sessions

pub rotate_refresh_token-returns :
    (i d g : ℕ) (r : RefreshToken) (at : DateTime) (tx : Tx Store) {tx' : Tx Store}
    {t : RefreshToken}
    → Repository.rotate_refresh_token i d g r at tx ≡ (ok t, tx')
    → (a : Store) × (insert_token r tx.working ≡ ok a)
      × (consume_token i d g r.id at a ≡ ok tx'.working)
unfolding Repository.rotate_refresh_token
rotate_refresh_token-returns i d g r at tx h =
    let (_, a, h, k) = >>=-returns (or_rollback (change (insert_token r))) _ tx h in
    let (s, s_ok, a_eq) = change-returns _ (or_rollback-returns _ h) in
    let (_, b, h, k) = >>=-returns (or_rollback (change (consume_token i d g r.id at))) _ a k in
    let (s', s'_ok, b_eq) = change-returns _ (or_rollback-returns _ h) in
    let (_, end) = lift-returns (token_from_record r) k in (s, s_ok, cc)

finish_rotation-returns :
    (i d g : ℕ) (r : RefreshToken) (at : DateTime) (b : Bool) (e : Result AuditEvent)
    (pair : Result TokenPair) (tx tx' : Tx Store) (p : TokenPair)
    → (Repository.rotate_refresh_token i d g r at >>= λ _.
          record_event b e >>= λ _. commit >>= λ _. lift pair)
        tx
      ≡ (ok p, tx')
    → (s s' : Store) × (insert_token r tx.working ≡ ok s)
      × (consume_token i d g r.id at s ≡ ok s')
      × (tx'.committed.tokens ≡ s'.tokens)
      × (tx'.committed.sessions ≡ s'.sessions)
finish_rotation-returns i d g r at b e pair tx tx' p h =
    let (_, x, moved, h) = >>=-returns (Repository.rotate_refresh_token i d g r at) _ tx h in
    let (s, inserts, consumes) = rotate_refresh_token-returns i d g r at tx moved in
    let (_, y, recorded, h) = >>=-returns (record_event b e) _ x h in
    let (tokens, sessions) = record_event-returns b e x recorded in
    let (_, z, committed, h) = >>=-returns commit _ y h in
    let z_eq = commit-returns y committed in
    let (_, end) = lift-returns pair h in (s, x.working, inserts, consumes, cc, cc)

is_expired-eq-ok :
    (x : RefreshToken) (t : ℕ) {b : Bool}
    → Token.is_expired x (utc t) ≡ ok b
    → at_or_before x.expires_at (utc t) ≡ b
unfolding Token.is_expired normalize
is_expired-eq-ok x t h = ok-injective h

pub rotate-returns :
    (ports : Ports) (draw : Draw) (t digest : ℕ) (current : RefreshToken) (tx tx' : Tx Store)
    (p : TokenPair)
    → rotate ports draw t digest current tx ≡ (ok p, tx')
    → Replaced ports draw t digest current tx tx'
unfolding rotate
rotate-returns ports draw t digest current tx tx' p h =
    let (_, live, h) = lift-then (raise_if (is_some current.revoked_at) _) _ h in
    let (expired, judged, h) = lift-then (Token.is_expired current (utc t)) _ h in
    let (_, fresh, h) = lift-then (raise_if expired _) _ h in
    let (row, session, active, read, h) = get_active_by_id-then current.session_id (utc t) _ _ h in
    let (i, _, h) = lift-then (typed_id (draw.uuid 0)) _ h in
    let (r, replaced, h) = lift-then (Token.replacement current i _ _ _) _ h in
    let (_, _, h) = lift-then (access_claims ports _ _ _ _) _ h in
    let (s, s', inserts, consumes, tokens, sessions) =
      finish_rotation-returns session.id digest current.generation r (utc t) ports.audited _ _ tx
        tx' p h in
    record {
      session = session;
      row = row;
      active = active;
      read = read;
      unrevoked = raise_if-eq-ok (is_some current.revoked_at) _ live;
      unexpired =
          is_expired-eq-ok current t judged ∙ raise_if-eq-ok expired expired_refresh_token fresh;
      replacement = r;
      id = i;
      replaced = replaced;
      inserted = s;
      inserts = inserts;
      consumed_in = s';
      consumes = consumes;
      tokens = tokens;
      sessions = sessions;
    }
