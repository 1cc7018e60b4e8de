-- ===== src/Sessions/Lifecycle/Refused.antt =====
-- When access tokens and refresh tokens are refused.
use workflow_forge.Sessions.Repository
use workflow_forge.Sessions.Session.Laws.{session-post_init-eq-ok}
use workflow_forge.Sessions.Repository.{find_active}
use workflow_forge.Transaction.{Tx, Action, lift, gets, ◌>>=◌}
use workflow_forge.Sessions.Lifecycle.{
  or_rollback_unless_replay, verify_access_token, refresh_failure,
}
use workflow_forge.Sessions.Token.{token_from_record, RefreshToken}
use workflow_forge.Sessions.Session.{session_from_record, AuthSession}
use workflow_forge.Base.{
  Result, Option, ◌≡◌, read_optional, ℕ, List, true, ok, is_none, false, some, is_ok, >>=-eq-ok,
  err, arith, refl, none, or_raise, or_raise-eq-ok, Error, ◌∙◌, ap,
}
use workflow_forge.Sessions.Store.Tables.{is_closed, is_spent, is_revoked}
use workflow_forge.Sessions.Store.{Store, find_token}
use workflow_forge.Time.{DateTime, utc, instant}
use workflow_forge.Sessions.Claims.{AccessTokenClaims, clock_instant}
use workflow_forge.Identity.Validation.{validate_uuid, validate_uuid_optional}
use workflow_forge.Transaction.Returns.{lift-then, lift-returns}
use workflow_forge.Sessions.Token.Laws.{post_init-eq-ok}

pub refused :
    {A : Type 0} (m : Action Store A) (tx : Tx Store)
    → ((a : A) (tx' : Tx Store) → m tx ≡ (ok a, tx') → true ≡ false)
    → is_ok (m tx).0 ≡ false
refused m tx k = go (m tx).0 (m tx).1 refl
  where
    go : (r : Result _) (tx' : Tx Store) → m tx ≡ (r, tx') → is_ok r ≡ false
    go (ok a) tx' e = k a tx' e
    go (err x) tx' e = refl

pub or_rollback_unless_replay-returns :
    {A : Type 0} {a : A} {tx tx' : Tx Store} (m : Action Store A)
    → or_rollback_unless_replay m tx ≡ (ok a, tx')
    → m tx ≡ (ok a, tx')
unfolding or_rollback_unless_replay
or_rollback_unless_replay-returns {A} {a} {tx} {tx'} m h = go (m tx).0 (m tx).1 refl h
  where
    go :
        (r : Result A) (mid : Tx Store)
        → m tx ≡ (r, mid)
        → ◌≡◌ {A = Result A × Tx Store} (r, refresh_failure r mid) (ok a, tx')
        → m tx ≡ (ok a, tx')
    go (ok b) mid e h = cc
    go (err x) mid e h = cc

pub token_from_record-eq-ok :
    (row t : RefreshToken)
    → token_from_record row ≡ ok t
    → (t.session_id ≡ row.session_id)
      × (t.token_digest ≡ row.token_digest)
      × (t.generation ≡ row.generation)
      × (is_spent t ≡ is_spent row)
      × (is_revoked t ≡ is_revoked row)
      × (instant t.expires_at ≡ instant row.expires_at)
      × (t.token_family_id ≡ row.token_family_id)
unfolding token_from_record
token_from_record-eq-ok row t h =
    let (_, _, h) = >>=-eq-ok (validate_uuid row.id) _ h in
    let (_, _, h) = >>=-eq-ok (validate_uuid row.session_id) _ h in
    let (_, _, h) = >>=-eq-ok (validate_uuid row.token_family_id) _ h in
    let (_, _, h) = >>=-eq-ok (validate_uuid_optional row.replaced_by_token_id) _ h in
    let (_, session, family, digest, generation, used, revoked, replaced, expires) =
      post_init-eq-ok row t h in
    (session, digest, generation, ground arith, ground arith, expires, family)

pub session_from_record-eq-ok :
    (row x : AuthSession)
    → session_from_record row ≡ ok x
    → (x.id ≡ row.id)
      × (x.user_id ≡ row.user_id)
      × (is_none x.revoked_at ≡ is_none row.revoked_at)
      × (instant x.expires_at ≡ instant row.expires_at)
unfolding session_from_record
session_from_record-eq-ok row x h =
    let (_, _, h) = >>=-eq-ok (validate_uuid row.id) _ h in session-post_init-eq-ok row x h

pub read_optional-eq-ok :
    {A : Type 0} (read : A → Result A) (row : Option A) {a : A}
    → read_optional read row ≡ ok (some a)
    → (r : A) × (row ≡ some r) × (read r ≡ ok a)
read_optional-eq-ok read none h = cc
read_optional-eq-ok read (some r) h = let (b, b_ok, h) = >>=-eq-ok (read r) _ h in (r, refl, cc)

module _ {B : Type 0} {tx tx' : Tx Store} {b : B} where
  pub get_refresh_token_by_digest-then :
      (d : ℕ) (e : Error) (f : RefreshToken → Action Store B)
      → (Repository.get_refresh_token_by_digest d >>= λ found. lift (or_raise found e) >>= f) tx
        ≡ (ok b, tx')
      → (row : RefreshToken) × (t : RefreshToken) × (find_token d tx.working.tokens ≡ some row)
        × (token_from_record row ≡ ok t)
        × (f t tx ≡ (ok b, tx'))
  unfolding Repository.get_refresh_token_by_digest gets
  get_refresh_token_by_digest-then d e f h =
      let (o, read, h) =
        lift-then (read_optional token_from_record (find_token d tx.working.tokens)) _ h in
      let (t, t_eq, h) = lift-then (or_raise o e) f h in
      let (row, found, row_ok) =
        read_optional-eq-ok token_from_record (find_token d tx.working.tokens)
          (read ∙ ap ok (or_raise-eq-ok o e t_eq)) in
      (row, t, found, row_ok, h)

  pub get_active_by_id-then :
      (i : ℕ) (at : DateTime) (e : Error) (f : AuthSession → Action Store B)
      → (Repository.get_active_by_id i at >>= λ found. lift (or_raise found e) >>= f) tx
        ≡ (ok b, tx')
      → (row : AuthSession) × (x : AuthSession) × (find_active i at tx.working.sessions ≡ some row)
        × (session_from_record row ≡ ok x)
        × (f x tx ≡ (ok b, tx'))
  unfolding Repository.get_active_by_id gets
  get_active_by_id-then i at e f h =
      let (o, read, h) =
        lift-then (read_optional session_from_record (find_active i at tx.working.sessions)) _ h in
      let (x, x_eq, h) = lift-then (or_raise o e) f h in
      let (row, found, row_ok) =
        read_optional-eq-ok session_from_record (find_active i at tx.working.sessions)
          (read ∙ ap ok (or_raise-eq-ok o e x_eq)) in
      (row, x, found, row_ok, h)

pub get_refresh_token_by_digest-returns :
    (d : ℕ) (tx : Tx Store) {tx' : Tx Store} {t : RefreshToken}
    → Repository.get_refresh_token_by_digest d tx ≡ (ok (some t), tx')
    → (row : RefreshToken) × (find_token d tx.working.tokens ≡ some row)
      × (token_from_record row ≡ ok t)
      × (tx' ≡ tx)
unfolding Repository.get_refresh_token_by_digest gets
get_refresh_token_by_digest-returns d tx h =
    let (read, same) =
      lift-returns (read_optional token_from_record (find_token d tx.working.tokens)) h in
    let (row, found, row_ok) =
      read_optional-eq-ok token_from_record (find_token d tx.working.tokens) read in
    (row, found, row_ok, same)

-- A closed session is not found active, at any time.
pub find_active-of_closed :
    (i : ℕ) (at : DateTime) (xs : List AuthSession) {row : AuthSession}
    → is_closed i xs ≡ true
    → find_active i at xs ≡ some row
    → true ≡ false
unfolding find_active is_closed
find_active-of_closed i at xs c h = ground arith

pub verify_access_token-of_closed :
    (now : DateTime) (access : AccessTokenClaims) (tx : Tx Store)
    → is_closed access.session_id tx.working.sessions ≡ true
    → is_ok (verify_access_token now (ok access) tx).0 ≡ false
unfolding verify_access_token lift
verify_access_token-of_closed now access tx c =
    refused (verify_access_token now (ok access)) tx λ a tx' h.
      let (t, _, h) = lift-then (clock_instant now) _ h in
      let (row, x, active, _, _) = get_active_by_id-then access.session_id (utc t) _ _ h in
      find_active-of_closed access.session_id (utc t) tx.working.sessions c active
