-- ===== src/Sessions/Lifecycle/Rotation.antt =====
-- What a refresh that returns leaves in the tables: the old token used, its replacement live.
use workflow_forge.Sessions.Lifecycle.{Ports, Draw, refresh_session}
use workflow_forge.Transaction.{run, Tx}
use workflow_forge.Sessions.Store.Tables.{is_token, is_spent, is_revoked}
use workflow_forge.Sessions.Store.{
  is_rotatable, Store, find_token, insert_token, consume_token, find_session, session_is_active,
  consumed,
}
use workflow_forge.Base.{
  ℕ, ◌≡◌, ◌==◌, true, some, false, ◌+◌, ok, arith, ◌≤◌, ap, if◌then◌else◌, ◌∙◌, sym, ◌∷◌, leb, map,
}
use workflow_forge.Text.{Text}
use workflow_forge.Sessions.Token.{RefreshToken, token_from_record}
use workflow_forge.Time.{DateTime, at_or_before, instant, utc}
use workflow_forge.Sessions.Session.{AuthSession}
use workflow_forge.Sessions.Claims.{TokenPair}
use workflow_forge.Sessions.Lifecycle.Refresh.{Replaced, refresh_session-returns, rotate-returns}
use workflow_forge.Transaction.Returns.{returned}
use workflow_forge.Sessions.Lifecycle.Replacement.{
  insert_token-eq-ok, replacement-eq-ok, find_active-eq-some, session_is_active-of_found,
  find_token-cons, find_token-first, refresh_expiry-le,
}
use workflow_forge.Sessions.Lifecycle.Refused.{token_from_record-eq-ok, session_from_record-eq-ok}
use workflow_forge.Sessions.Store.Consumption.{
  consume_token-eq-ok, find_token-map, find_token-digest,
}
use workflow_forge.Sessions.Lifecycle.Guarantees.{find_session-id}

-- The row that the conditional update looks for is the row that was found.
is_rotatable-of_found :
    (i d g : ℕ) (at : DateTime) (s : Store) (row : RefreshToken)
    → row.session_id ≡ i
    → row.token_digest ≡ d
    → row.generation ≡ g
    → is_spent row ≡ false
    → is_revoked row ≡ false
    → at_or_before row.expires_at at ≡ false
    → session_is_active i at s.sessions ≡ true
    → is_rotatable i d g at s row ≡ true
unfolding is_rotatable
is_rotatable-of_found i d g at s row i_eq d_eq g_eq unspent unrevoked unexpired active =
    let active : session_is_active row.session_id at s.sessions ≡ true =
      ap (λ j. session_is_active j at s.sessions) i_eq ∙ active in
    ground arith

not_rotatable :
    (i d g : ℕ) (at : DateTime) (s : Store) (t : RefreshToken)
    → (t.token_digest == d) ≡ false
    → is_rotatable i d g at s t ≡ false
unfolding is_rotatable
not_rotatable i d g at s t h = ground arith

-- The tables after a rotation.
pub record After (ports : Ports) (draw : Draw) (digest : ℕ) (row r : RefreshToken) (x : AuthSession)
    (s : Store) : Type 0 where
  pub spent : is_token is_spent digest s.tokens ≡ true
  pub fresh : find_token (ports.digest_token draw.token) s.tokens ≡ some r
  pub next : r.generation ≡ row.generation + 1
  pub same_session : r.session_id ≡ row.session_id
  pub same_family : r.token_family_id ≡ row.token_family_id
  pub unspent : is_spent r ≡ false
  pub unrevoked : is_revoked r ≡ false
  pub within : instant r.expires_at ≤ instant x.expires_at

-- The consumption of the token that was found spends it, and passes over its replacement.
consumption_effect :
    (i d g : ℕ) (at : DateTime) (row r : RefreshToken) (w s s' : Store)
    → find_token d w.tokens ≡ some row
    → insert_token r w ≡ ok s
    → consume_token i d g r.id at s ≡ ok s'
    → is_rotatable i d g at s row ≡ true
    → (r.token_digest == d) ≡ false
    → (is_token is_spent d s'.tokens ≡ true) × (find_token r.token_digest s'.tokens ≡ some r)
unfolding is_token
consumption_effect i d g at row r w s s' found inserts consumes hit other =
    let (tokens, sessions, new) = insert_token-eq-ok r w s inserts in
    let (tokens', _, _) = consume_token-eq-ok i d g r.id at s s' consumes in
    let mark : RefreshToken → RefreshToken =
      λ t. if is_rotatable i d g at s t then consumed r.id at t else t in
    let old =
      find_token-map mark d (r ∷ w.tokens) row (λ t. ground arith)
        (find_token-cons d r w.tokens row new found) in
    let fresh =
      find_token-map mark r.token_digest (r ∷ w.tokens) r (λ t. ground arith)
        (find_token-first r w.tokens) in
    let all = tokens' ∙ ap (map mark) tokens in
    let kept = not_rotatable i d g at s r other in (ground arith, ground arith)

-- A rotation that returns has spent the token that was found, and stored its replacement.
rotate-After :
    (ports : Ports) (draw : Draw) (t digest : ℕ) (row current : RefreshToken) (tx tx' : Tx Store)
    → find_token digest tx.working.tokens ≡ some row
    → token_from_record row ≡ ok current
    → is_spent current ≡ false
    → (q : Replaced ports draw t digest current tx tx')
    → After ports draw digest row q.replacement q.row tx'.committed
rotate-After ports draw t digest row current tx tx' found read unspent q =
    let (session, found_digest, generation, spent, revoked, expires, family) =
      token_from_record-eq-ok row current read in
    let (digest_eq, other, r_session, r_family, r_generation, r_unspent, r_unrevoked, r_expires) =
      replacement-eq-ok current q.id _ (utc t) _ q.replacement q.replaced in
    let (x_found, x_open, x_alive) =
      find_active-eq-some current.session_id (utc t) tx.working.sessions q.row q.active in
    let (x_id, _, _, x_expires) = session_from_record-eq-ok q.row q.session q.read in
    let x_id' = find_session-id current.session_id tx.working.sessions q.row x_found in
    let (_, sessions, _) = insert_token-eq-ok q.replacement tx.working q.inserted q.inserts in
    let active =
      session_is_active-of_found current.session_id (utc t) tx.working.sessions q.row x_found x_open
        x_alive in
    let hit =
      is_rotatable-of_found q.session.id digest current.generation (utc t) q.inserted row
        (sym session ∙ sym x_id' ∙ sym x_id) (find_token-digest digest tx.working.tokens row found)
        (sym generation) (sym spent ∙ unspent) (sym revoked ∙ q.unrevoked)
        (ap (λ n. leb n t) (sym expires) ∙ q.unexpired)
        (ap (λ xs. session_is_active q.session.id (utc t) xs) sessions
          ∙ ap (λ i. session_is_active i (utc t) tx.working.sessions) (x_id ∙ x_id')
          ∙ active) in
    let (old, fresh) =
      consumption_effect q.session.id digest current.generation (utc t) row q.replacement tx.working
        q.inserted q.consumed_in found q.inserts q.consumes hit
        (ap (λ d. q.replacement.token_digest == d)
            (sym (find_token-digest digest tx.working.tokens row found) ∙ sym found_digest)
          ∙ other) in
    record {
      spent = ap (is_token is_spent digest) q.tokens ∙ old;
      fresh =
          ap (λ d. find_token d tx'.committed.tokens) (sym digest_eq)
          ∙ ap (find_token q.replacement.token_digest) q.tokens
          ∙ fresh;
      next = r_generation ∙ ap (λ n. n + 1) generation;
      same_session = r_session ∙ session;
      same_family = r_family ∙ family;
      unspent = r_unspent;
      unrevoked = r_unrevoked;
      within = omega (arith, r_expires, x_expires, refresh_expiry-le ports t q.session);
    }

refresh_session-After :
    (ports : Ports) (draw : Draw) (token : Text) (tx tx' : Tx Store) (pair : TokenPair)
    → refresh_session ports draw token tx ≡ (ok pair, tx')
    → (row r : RefreshToken) × (x : AuthSession) × (find_token
          (ports.digest_token token)
          tx.working.tokens
        ≡ some row)
      × (find_session row.session_id tx.working.sessions ≡ some x)
      × After ports draw (ports.digest_token token) row r x tx'.committed
refresh_session-After ports draw token tx tx' pair h =
    let r = refresh_session-returns ports draw token tx pair tx' h in
    let q = rotate-returns ports draw r.time _ r.current tx tx' pair r.rotated in
    let (session, _, _, _, _, _, _) = token_from_record-eq-ok r.row r.current r.read in
    let (x_found, _, _) =
      find_active-eq-some r.current.session_id _ tx.working.sessions q.row q.active in
    (
      r.row,
      q.replacement,
      q.row,
      r.found,
      ap (λ i. find_session i tx.working.sessions) (sym session) ∙ x_found,
      rotate-After ports draw r.time _ r.row r.current tx tx' r.found r.read r.unspent q,
    )

pub refresh_session-spends :
    (ports : Ports) (draw : Draw) (token : Text) (tx tx' : Tx Store) (pair : TokenPair)
    → refresh_session ports draw token tx ≡ (ok pair, tx')
    → is_token is_spent (ports.digest_token token) tx'.committed.tokens ≡ true
refresh_session-spends ports draw token tx tx' pair h =
    let (_, _, _, _, _, after) = refresh_session-After ports draw token tx tx' pair h in after.spent

-- A refresh that returns has found the row of the token and the row of its session. Afterwards the
-- token is used, and the digest of the new token finds an unused and unrevoked row of the same
-- session and family, one generation later, that does not outlive the session.
pub refresh_rotates :
    (ports : Ports) (draw : Draw) (token : Text) (s : Store) (pair : TokenPair)
    → (run (refresh_session ports draw token) s).0 ≡ ok pair
    → (row r : RefreshToken) × (x : AuthSession) × (find_token (ports.digest_token token) s.tokens
        ≡ some row)
      × (find_session row.session_id s.sessions ≡ some x)
      × After ports draw
          (ports.digest_token token)
          row
          r
          x
          (run (refresh_session ports draw token) s).1
unfolding run
refresh_rotates ports draw token s pair h =
    let tx : Tx Store = record { committed = s; working = s } in
    refresh_session-After ports draw token tx (refresh_session ports draw token tx).1 pair
      (returned _ h)
