-- ===== src/Examples/Replays.antt =====
-- A used refresh token is presented.
use workflow_forge.Sessions.Token
use workflow_forge.Sessions.Store.{find_session, find_token}
use workflow_forge.Sessions.Lifecycle.Detected.{blocks_sweep, replay_is_detected}
use workflow_forge.Sessions.Token.{token_from_record}
use workflow_forge.Transaction.{run}
use workflow_forge.Sessions.Claims.{clock_instant}
use workflow_forge.Sessions.Session.Laws.{WellFormed}
use workflow_forge.Time.{utc, normalize, normalize_optional}
use workflow_forge.Examples.LoginData.{session, used_token, used_store, replay_draw, ports}
use workflow_forge.Sessions.Lifecycle.{refresh_session}
use workflow_forge.Base.{
  arith, ◌≡◌, ◌≢◌, ◌∷◌, ok, false, some, refl, [], err, refresh_token_replay, true, any, ◌⊎◌, is_ok,
}
use workflow_forge.Sessions.Store.Tables.{is_closed}
use workflow_forge.Sessions.Lifecycle.Guarantees.{is_live_of}
use workflow_forge.Sessions.Lifecycle.Replay.{replay_closes_session}
use workflow_forge.Identity.Validation.{validate_uuid, validate_uuid_optional}

used_found : find_token 1 used_store.tokens ≡ some used_token
unfolding find_token
used_found = refl

replay_closes_session_example :
    (((run (refresh_session ports replay_draw (9 ∷ [])) used_store).0 ≡ err refresh_token_replay)
      × (is_closed 5 (run (refresh_session ports replay_draw (9 ∷ [])) used_store).1.sessions
          ≡ true)
      × (any (is_live_of 5) (run (refresh_session ports replay_draw (9 ∷ [])) used_store).1.tokens
          ≡ false))
    ⊎ ((is_ok (run (refresh_session ports replay_draw (9 ∷ [])) used_store).0 ≡ false)
        × ((run (refresh_session ports replay_draw (9 ∷ [])) used_store).1 ≡ used_store))
replay_closes_session_example =
    replay_closes_session ports replay_draw (9 ∷ []) used_store used_token used_found refl

used_read : Token.token_from_record used_token ≡ ok used_token
unfolding Token.token_from_record validate_uuid validate_uuid_optional Token.post_init normalize
    normalize_optional
used_read = refl

used_session_found : find_session 5 used_store.sessions ≡ some session
unfolding find_session
used_session_found = refl

session-WellFormed : WellFormed session
session-WellFormed = ground arith

clock_shows : clock_instant replay_draw.now ≡ ok 160
unfolding clock_instant normalize
clock_shows = refl

sweep_open : blocks_sweep 5 (utc 160) used_store.tokens ≡ false
sweep_open = refl

five_ne_zero : session.id ≢ 0
five_ne_zero = omega arith

replay_is_detected_example :
    (run (refresh_session ports replay_draw (9 ∷ [])) used_store).0 ≡ err refresh_token_replay
replay_is_detected_example =
    replay_is_detected ports replay_draw (9 ∷ []) used_store used_token used_token session 160
      clock_shows used_found used_read refl used_session_found five_ne_zero session-WellFormed
      (omega arith) sweep_open refl refl refl
