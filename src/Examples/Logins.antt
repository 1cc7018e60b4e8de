-- ===== src/Examples/Logins.antt =====
-- A session with one refresh token, refreshed, replayed, revoked and logged out.
use workflow_forge.Audit
use workflow_forge.Sessions.Session
use workflow_forge.Sessions.Token
use workflow_forge.Sessions.Repository
use workflow_forge.Sessions.Store.{
  consume_token, Store, find_token, find_session, write_session, session_check, put_session,
  revoke_current_refresh_tokens, update_tokens, token_check, append_event, insert_token,
  token_violation, count, is_rotatable, close_sessions, open_ids, revoke_tokens_of,
}
use workflow_forge.Sessions.Store.Changes.{Extends}
use workflow_forge.Sessions.Claims.{clock_instant, claims, token_pair}
use workflow_forge.Sessions.Lifecycle.{
  refresh_session, logout_session, start_user_session, logout_all_sessions, access_claims,
  record_event, detect_replay, rotate, or_rollback_unless_replay,
}
use workflow_forge.Transaction.{run, or_rollback, gets, lift, change, commit, pure, raise, Tx}
use workflow_forge.Sessions.Token.{RefreshToken}
use workflow_forge.Sessions.Lifecycle.LoggedOut.{IsShut, logged_out_forever, refreshed_once}
use workflow_forge.Base.{
  is_ok, Result, ◌≡◌, some, ◌∷◌, ℕ, length, ok, none, refl, [], err, false, value_error, not_aware,
  Option, arith,
}
use workflow_forge.Sessions.Session.{AuthSession}
use workflow_forge.Sessions.Lifecycle.Trace.{
  perform_all, refresh, logout, perform_all-Extends, logout_all,
}
use workflow_forge.Time.{utc, normalize, normalize_optional}
use workflow_forge.Sessions.Lifecycle.Rotation.{After, refresh_rotates}
use workflow_forge.Sessions.Lifecycle.Atomic.{refresh_session_atomic, login_logout_atomic}
use workflow_forge.Sessions.Lifecycle.Race.{rotation_race, refusal}
use workflow_forge.Transaction.Returns.{returned}
use workflow_forge.Identity.Validation.{validate_uuid, validate_uuid_optional, typed_id}
use workflow_forge.Audit.{append}
use workflow_forge.Sessions.Lifecycle.LoggedOutAll.{logged_out_everywhere}
use workflow_forge.Examples.LoginData.{
  used_store, ports, store, refresh_draw, naive_draw, token, session, replay_draw, refreshed,
}

logout_returns : (run (logout_session ports refresh_draw 1 5) store).0 ≡ ok tt
unfolding run or_rollback gets lift change commit pure raise clock_instant normalize
    normalize_optional validate_uuid validate_uuid_optional typed_id claims token_pair access_claims
    record_event detect_replay rotate or_rollback_unless_replay refresh_session logout_session
    Repository.get_by_id Repository.revoke Repository.get_refresh_token_by_digest
    Repository.get_active_by_id Repository.find_active Repository.rotate_refresh_token find_session
    find_token Session.session_from_record Session.post_init Session.revoke
    Session.mutation_timestamp Token.token_from_record Token.post_init Token.is_expired
    Token.replacement write_session session_check put_session revoke_current_refresh_tokens
    update_tokens token_check append_event append Audit.create insert_token token_violation
    consume_token count is_rotatable
logout_returns = refl

refresh_returns : (run (refresh_session ports refresh_draw (9 ∷ [])) store).0 ≡ ok refreshed
unfolding run or_rollback gets lift change commit pure raise clock_instant normalize
    normalize_optional validate_uuid validate_uuid_optional typed_id claims token_pair access_claims
    record_event detect_replay rotate or_rollback_unless_replay refresh_session logout_session
    Repository.get_by_id Repository.revoke Repository.get_refresh_token_by_digest
    Repository.get_active_by_id Repository.find_active Repository.rotate_refresh_token find_session
    find_token Session.session_from_record Session.post_init Session.revoke
    Session.mutation_timestamp Token.token_from_record Token.post_init Token.is_expired
    Token.replacement write_session session_check put_session revoke_current_refresh_tokens
    update_tokens token_check append_event append Audit.create insert_token token_violation
    consume_token count is_rotatable
refresh_returns = refl

logged_out_forever_example :
    IsShut ports 5
      (perform_all ports (logout refresh_draw 1 5 ∷ refresh replay_draw (9 ∷ []) ∷ []) store)
logged_out_forever_example =
    logged_out_forever ports refresh_draw 1 5 store (refresh replay_draw (9 ∷ []) ∷ [])
      logout_returns

refreshed_once_example :
    is_ok
      (run
        (refresh_session ports replay_draw (9 ∷ []))
        (perform_all ports (refresh refresh_draw (9 ∷ []) ∷ []) store)).0
    ≡ false
refreshed_once_example =
    refreshed_once ports refresh_draw replay_draw (9 ∷ []) store refreshed [] refresh_returns

refresh_rotates_example :
    (row r : RefreshToken) × (x : AuthSession) × (find_token 1 store.tokens ≡ some row)
    × (find_session row.session_id store.sessions ≡ some x)
    × After ports refresh_draw 1 row r x (run (refresh_session ports refresh_draw (9 ∷ [])) store).1
refresh_rotates_example =
    refresh_rotates ports refresh_draw (9 ∷ []) store refreshed refresh_returns

refresh_raises :
    (run (refresh_session ports naive_draw (9 ∷ [])) store).0 ≡ err (value_error not_aware)
unfolding run or_rollback gets lift change commit pure raise clock_instant normalize
    normalize_optional validate_uuid validate_uuid_optional typed_id claims token_pair access_claims
    record_event detect_replay rotate or_rollback_unless_replay refresh_session logout_session
    Repository.get_by_id Repository.revoke Repository.get_refresh_token_by_digest
    Repository.get_active_by_id Repository.find_active Repository.rotate_refresh_token find_session
    find_token Session.session_from_record Session.post_init Session.revoke
    Session.mutation_timestamp Token.token_from_record Token.post_init Token.is_expired
    Token.replacement write_session session_check put_session revoke_current_refresh_tokens
    update_tokens token_check append_event append Audit.create insert_token token_violation
    consume_token count is_rotatable
refresh_raises = refl

refresh_session_atomic_example : (run (refresh_session ports naive_draw (9 ∷ [])) store).1 ≡ store
refresh_session_atomic_example =
    refresh_session_atomic ports naive_draw (9 ∷ []) store (value_error not_aware) refresh_raises
      (λ e. cc)

login_logout_atomic_example :
    ((authenticated : Result ℕ)
      → (run (start_user_session ports naive_draw authenticated) store).0
        ≡ err (value_error not_aware)
      → (run (start_user_session ports naive_draw authenticated) store).1 ≡ store)
    × ((u i : ℕ)
        → (run (logout_session ports naive_draw u i) store).0 ≡ err (value_error not_aware)
        → (run (logout_session ports naive_draw u i) store).1 ≡ store)
    × ((u : ℕ) (i : Option ℕ)
        → (run (logout_all_sessions ports naive_draw u i) store).0 ≡ err (value_error not_aware)
        → (run (logout_all_sessions ports naive_draw u i) store).1 ≡ store)
login_logout_atomic_example = login_logout_atomic ports naive_draw store (value_error not_aware)

perform_all-Extends_example :
    Extends used_store
      (perform_all ports (refresh replay_draw (9 ∷ []) ∷ logout refresh_draw 1 5 ∷ []) used_store)
perform_all-Extends_example =
    perform_all-Extends ports (refresh replay_draw (9 ∷ []) ∷ logout refresh_draw 1 5 ∷ [])
      used_store

-- The first replacement of the token, and the one of a second rotation
abbrev rotation_replacement : RefreshToken
rotation_replacement = record token {
  id = 8;
  token_digest = 2;
  generation = 1;
  issued_at = utc 150;
}

abbrev rotation_start : Tx Store
rotation_start = record { committed = store; working = store }

rotation_returns :
    (Repository.rotate_refresh_token 5 1 0 rotation_replacement (utc 150) rotation_start).0
    ≡ ok rotation_replacement
unfolding run or_rollback gets lift change commit pure raise clock_instant normalize
    normalize_optional validate_uuid validate_uuid_optional typed_id claims token_pair access_claims
    record_event detect_replay rotate or_rollback_unless_replay refresh_session logout_session
    Repository.get_by_id Repository.revoke Repository.get_refresh_token_by_digest
    Repository.get_active_by_id Repository.find_active Repository.rotate_refresh_token find_session
    find_token Session.session_from_record Session.post_init Session.revoke
    Session.mutation_timestamp Token.token_from_record Token.post_init Token.is_expired
    Token.replacement write_session session_check put_session revoke_current_refresh_tokens
    update_tokens token_check append_event append Audit.create insert_token token_violation
    consume_token count is_rotatable
rotation_returns = refl

rotation_race_example :
    run
      (Repository.rotate_refresh_token 5 1 0 (record rotation_replacement { id = 9 }) (utc 151))
      (Repository.rotate_refresh_token 5 1 0 rotation_replacement
        (utc 150)
        rotation_start).1.working
    ≡ (
      err (
          refusal (
            token_violation
              (Repository.rotate_refresh_token 5 1 0 rotation_replacement
                (utc 150)
                rotation_start).1.working
              (record rotation_replacement { id = 9 }))),
      (Repository.rotate_refresh_token 5 1 0 rotation_replacement
          (utc 150)
          rotation_start).1.working,
    )
rotation_race_example =
    rotation_race 5 1 0 rotation_replacement (record rotation_replacement { id = 9 })
      rotation_replacement (utc 150) (utc 151) rotation_start
      (Repository.rotate_refresh_token 5 1 0 rotation_replacement (utc 150) rotation_start).1
      (returned _ rotation_returns) (omega arith)

session_found : find_session 5 store.sessions ≡ some session
unfolding find_session
session_found = refl

logout_all_returns :
    (run (logout_all_sessions ports refresh_draw 1 none) store).0
    ≡ ok (length (open_ids 1 store.sessions))
unfolding run or_rollback gets lift change commit pure raise clock_instant normalize
    normalize_optional validate_uuid validate_uuid_optional typed_id claims token_pair access_claims
    record_event detect_replay rotate or_rollback_unless_replay refresh_session logout_session
    Repository.get_by_id Repository.revoke Repository.get_refresh_token_by_digest
    Repository.get_active_by_id Repository.find_active Repository.rotate_refresh_token find_session
    find_token Session.session_from_record Session.post_init Session.revoke
    Session.mutation_timestamp Token.token_from_record Token.post_init Token.is_expired
    Token.replacement write_session session_check put_session revoke_current_refresh_tokens
    update_tokens token_check append_event append Audit.create insert_token token_violation
    consume_token count is_rotatable logout_all_sessions Repository.revoke_all_for_user
    close_sessions open_ids revoke_tokens_of
logout_all_returns = refl

logged_out_everywhere_example :
    (length (open_ids 1 store.sessions) ≡ length (open_ids 1 store.sessions))
    × IsShut ports 5 (perform_all ports (logout_all refresh_draw 1 none ∷ []) store)
logged_out_everywhere_example =
    logged_out_everywhere ports refresh_draw 1 none store (length (open_ids 1 store.sessions)) 5
      session [] logout_all_returns session_found refl
