-- ===== src/Sessions/Lifecycle/Guarantees.antt =====
-- What a client of the use cases can rely on after a logout, a refresh or a replay.
use workflow_forge.Sessions.Session
use workflow_forge.Sessions.Repository
use workflow_forge.Sessions.Store.{
  find_session, write_session, revoke_current_refresh_tokens, put_session, Store, session_check,
}
use workflow_forge.Base.{
  ℕ, List, ◌≡◌, any, Bool, ◌==◌, map, some, ok, true, if◌then◌else◌, is_some, ◌&&◌, >>=-eq-ok, ◌∷◌,
  raise_if, arith, is_none, false, not, [], refl, or_raise, or_raise-eq-ok, ◌∙◌, is_some-of_is_none,
  ap,
}
use workflow_forge.Sessions.Session.{AuthSession, session_from_record}
use workflow_forge.Time.{DateTime}
use workflow_forge.Sessions.Token.{RefreshToken}
use workflow_forge.Transaction.{Tx, change}
use workflow_forge.Sessions.Store.Tables.{is_closed}
use workflow_forge.Transaction.Returns.{gets-then, lift-then, change-returns, lift-returns}
use workflow_forge.Sessions.Store.Consumption.{update_tokens-eq-ok}
use workflow_forge.Transaction.Rules.{>>=-returns}
use workflow_forge.Sessions.Session.Laws.{revoke-eq-ok}
use workflow_forge.Sessions.Lifecycle.Refused.{session_from_record-eq-ok}

pub find_session-id :
    (i : ℕ) (xs : List AuthSession) (x : AuthSession) → find_session i xs ≡ some x → x.id ≡ i
unfolding find_session
find_session-id i [] x h = cc
find_session-id i (y ∷ ys) x h = ground (arith, find_session-id i ys x)

is_closed-of_put :
    (i : ℕ) (xs : List AuthSession) (row x : AuthSession)
    → find_session i xs ≡ some row
    → x.id ≡ i
    → is_some x.revoked_at ≡ true
    → is_closed i (put_session x xs) ≡ true
unfolding find_session put_session is_closed
is_closed-of_put i [] row x found same r = cc
is_closed-of_put i (y ∷ ys) row x found same r = ground (arith, is_closed-of_put i ys row x)

write_session-eq-ok :
    (x : AuthSession) (s s' : Store)
    → write_session x s ≡ ok s'
    → s'.sessions ≡ put_session x s.sessions
unfolding write_session
write_session-eq-ok x s s' h =
    let (_, _, h) = >>=-eq-ok (raise_if (not (session_check x)) _) _ h in cc

revoke_current_refresh_tokens-eq-ok :
    (i : ℕ) (at : DateTime) (s s' : Store)
    → revoke_current_refresh_tokens i at s ≡ ok s'
    → (s'.tokens
        ≡ map
            (λ t.
              if t.session_id == i && is_none t.used_at && is_none t.revoked_at
              then record t { revoked_at = some at }
              else t)
            s.tokens)
      × (s'.sessions ≡ s.sessions)
unfolding revoke_current_refresh_tokens
revoke_current_refresh_tokens-eq-ok i at s s' h = update_tokens-eq-ok _ _ s s' h

-- No token of the session is both unused and unrevoked.
abbrev pub is_live_of : ℕ → RefreshToken → Bool
is_live_of i t = t.session_id == i && is_none t.used_at && is_none t.revoked_at

none_live :
    (i : ℕ) (at : DateTime) (ts : List RefreshToken)
    → any (is_live_of i) (
        map
          (λ t.
            if t.session_id == i && is_none t.used_at && is_none t.revoked_at
            then record t { revoked_at = some at }
            else t)
          ts)
      ≡ false
none_live i at [] = refl
none_live i at (t ∷ ts) = ground (arith, none_live i at ts)

-- A revocation that returns has closed the session and left none of its tokens live.
pub revoke-returns :
    (i : ℕ) (at : DateTime) (tx tx' : Tx Store) (x : AuthSession)
    → Repository.revoke i at tx ≡ (ok x, tx')
    → (is_closed i tx'.working.sessions ≡ true) × (any (is_live_of i) tx'.working.tokens ≡ false)
unfolding Repository.revoke
revoke-returns i at tx tx' x h =
    let h = gets-then (λ s. find_session i s.sessions) _ h in
    let (row, found, h) = lift-then (or_raise (find_session i tx.working.sessions) _) _ h in
    let (current, read, h) = lift-then (session_from_record row) _ h in
    let (y, revoked, h) = lift-then (Session.revoke current at) _ h in
    let (_, a, wrote, h) = >>=-returns (change (write_session y)) _ tx h in
    let (s, s_ok, a_eq) = change-returns (write_session y) wrote in
    let (_, b, swept, h) = >>=-returns (change (revoke_current_refresh_tokens i at)) _ a h in
    let (s', s'_ok, b_eq) = change-returns (revoke_current_refresh_tokens i at) swept in
    let (_, end) = lift-returns (session_from_record y) h in
    let found_eq = or_raise-eq-ok (find_session i tx.working.sessions) _ found in
    let (y_id, y_revoked) = revoke-eq-ok current y at revoked in
    let (current_id, _, _, _) = session_from_record-eq-ok row current read in
    let closed =
      is_closed-of_put i tx.working.sessions row y found_eq
        (y_id ∙ current_id ∙ find_session-id i tx.working.sessions row found_eq)
        (is_some-of_is_none y.revoked_at y_revoked) in
    let (tokens, sessions) = revoke_current_refresh_tokens-eq-ok i at a.working s' s'_ok in
    let done = ap (λ t. t.working) (end ∙ b_eq) in
    (
      ap (λ w. is_closed i w.sessions) done
          ∙ ap (is_closed i) (
              sessions
              ∙ ap (λ t. t.working.sessions) a_eq
              ∙ write_session-eq-ok y tx.working s s_ok)
          ∙ closed,
      ap (λ w. any (is_live_of i) w.tokens) done
          ∙ ap (any (is_live_of i)) tokens
          ∙ none_live i at a.working.tokens,
    )
