-- ===== src/Sessions/Repository.antt =====
-- The methods of `SqlAlchemySessionRepository`
-- (packages/infrastructure/src/workflowforge_infrastructure/identity/repository.py) as statements of
-- a use case.
use workflow_forge.Sessions.Session
use workflow_forge.Base.{
  ℕ, List, Option, none, some, or_raise, read_optional, session_not_found, if◌then◌else◌, is_none,
  ◌&&◌, length,
}
use workflow_forge.Sessions.Session.{AuthSession, session_from_record}
use workflow_forge.Sessions.Token.{RefreshToken, token_from_record}
use workflow_forge.Time.{DateTime, before}
use workflow_forge.Transaction.{Action, ◌>>◌, ◌>>=◌, or_rollback, gets, change, lift, pure}
use workflow_forge.Sessions.Store.{
  Store, find_session, find_token, open_ids, insert_token, insert_session, close_sessions,
  revoke_tokens_of, consume_token, write_session, revoke_current_refresh_tokens,
}

unfoldable pub get_by_id : ℕ → Action Store (Option AuthSession)
get_by_id i = do
  row ← gets (λ s. find_session i s.sessions)
  lift (read_optional session_from_record row)

-- The row that `get_active_by_id` selects.
unfoldable pub find_active : ℕ → DateTime → List AuthSession → Option AuthSession
find_active i at xs = elim (find_session i xs) [
  | none ↦ none
  | some x ↦ if is_none x.revoked_at && before at x.expires_at then some x else none
]

unfoldable pub get_active_by_id : ℕ → DateTime → Action Store (Option AuthSession)
get_active_by_id i at = do
  row ← gets (λ s. find_active i at s.sessions)
  lift (read_optional session_from_record row)

unfoldable pub get_refresh_token_by_digest : ℕ → Action Store (Option RefreshToken)
get_refresh_token_by_digest digest = do
  row ← gets (λ s. find_token digest s.tokens)
  lift (read_optional token_from_record row)

unfoldable pub add : AuthSession → RefreshToken → Action Store AuthSession
add session refresh_token = do
  or_rollback (change (insert_session session refresh_token))
  lift (session_from_record session)

-- `update`, which no use case of the session lifecycle calls
unfoldable pub update : AuthSession → Action Store AuthSession
update session = do
  found ← gets (λ s. find_session session.id s.sessions)
  row ← lift (or_raise found session_not_found)
  change (write_session session)
  lift (session_from_record session)

unfoldable pub revoke : ℕ → DateTime → Action Store AuthSession
revoke session_id revoked_at = do
  found ← gets (λ s. find_session session_id s.sessions)
  row ← lift (or_raise found session_not_found)
  current ← lift (session_from_record row)
  session ← lift (Session.revoke current revoked_at)
  change (write_session session)
  change (revoke_current_refresh_tokens session_id revoked_at)
  lift (session_from_record session)

unfoldable pub revoke_all_for_user : ℕ → DateTime → Action Store ℕ
revoke_all_for_user user_id revoked_at = do
  session_ids ← gets (λ s. open_ids user_id s.sessions)
  change (close_sessions user_id revoked_at)
  change (revoke_tokens_of session_ids revoked_at)
  pure (length session_ids)

unfoldable pub rotate_refresh_token :
    (session_id expected_digest expected_generation : ℕ)
    → RefreshToken
    → DateTime
    → Action Store RefreshToken
rotate_refresh_token session_id expected_digest expected_generation replacement rotated_at = do
  or_rollback (change (insert_token replacement))
  or_rollback (
      change
        (consume_token session_id expected_digest expected_generation replacement.id rotated_at))
  lift (token_from_record replacement)
