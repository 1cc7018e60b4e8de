-- ===== src/Sessions/Lifecycle/LoggedOutAll.antt =====
-- The effect of a logout from all sessions, and that no later call takes it back.
use workflow_forge.Sessions.Repository
use workflow_forge.Sessions.Lifecycle.{logout_all_sessions, Ports, Draw, record_event}
use workflow_forge.Transaction.{run, Tx, change, commit}
use workflow_forge.Base.{
  ℕ, Option, List, ◌≡◌, ok, some, length, map, true, >>=-eq-ok, if◌then◌else◌, raise_if, any, ◌∷◌,
  ◌&&◌, arith, not, [], ok-transport, ◌∙◌, ap,
}
use workflow_forge.Sessions.Lifecycle.Trace.{
  perform_all, perform, Call, logout_all, perform_all-Extends,
}
use workflow_forge.Time.{DateTime, utc}
use workflow_forge.Sessions.Store.{
  find_session, close_sessions, Store, open_ids, is_open_of, closed_at, revoke_tokens_of,
  session_check,
}
use workflow_forge.Sessions.Store.Tables.{is_closed}
use workflow_forge.Sessions.Session.{AuthSession}
use workflow_forge.Transaction.Returns.{
  or_rollback-returns, gets-then, lift-then, change-returns, returned, pure-returns, commit-returns,
}
use workflow_forge.Sessions.Lifecycle.LoggedOut.{
  IsShut, IsShut-of_closed, is_closed-of_record_event,
}
use workflow_forge.Transaction.Rules.{>>=-returns}
use workflow_forge.Sessions.Claims.{clock_instant}
use workflow_forge.Sessions.Store.Changes.{revoke_tokens_of-Extends}

module _ (u : ℕ) (at : DateTime) where
  is_closed-of_close :
      (i : ℕ) (xs : List AuthSession) (x : AuthSession)
      → find_session i xs ≡ some x
      → x.user_id ≡ u
      → is_closed i (map (λ y. if is_open_of u y then closed_at at y else y) xs) ≡ true
  unfolding find_session is_closed
  is_closed-of_close i [] x found own = cc
  is_closed-of_close i (y ∷ ys) x found own = ground (arith, is_closed-of_close i ys x)

  close_sessions-closes :
      (s s' : Store) (i : ℕ) (x : AuthSession)
      → close_sessions u at s ≡ ok s'
      → find_session i s.sessions ≡ some x
      → x.user_id ≡ u
      → is_closed i s'.sessions ≡ true
  unfolding close_sessions
  close_sessions-closes s s' i x h found own =
      let (_, _, h) =
        >>=-eq-ok
          (raise_if (any (λ x. is_open_of u x && not (session_check (closed_at at x))) s.sessions)
            _)
          _ h in
      ok-transport (λ w. is_closed i w.sessions ≡ true) h
        (is_closed-of_close i s.sessions x found own)

  revoke_all_for_user-closes :
      (tx tx' : Tx Store) (n i : ℕ) (x : AuthSession)
      → Repository.revoke_all_for_user u at tx ≡ (ok n, tx')
      → find_session i tx.working.sessions ≡ some x
      → x.user_id ≡ u
      → (n ≡ length (open_ids u tx.working.sessions)) × (is_closed i tx'.working.sessions ≡ true)
  unfolding Repository.revoke_all_for_user
  revoke_all_for_user-closes tx tx' n i x h found own =
      let h = gets-then (λ s. open_ids u s.sessions) _ h in
      let ids = open_ids u tx.working.sessions in
      let (_, a, closing, h) = >>=-returns (change (close_sessions u at)) _ tx h in
      let (s, s_ok, a_eq) = change-returns (close_sessions u at) closing in
      let (_, b, sweeping, h) = >>=-returns (change (revoke_tokens_of ids at)) _ a h in
      let (s', s'_ok, b_eq) = change-returns (revoke_tokens_of ids at) sweeping in
      let (n_eq, end) = pure-returns (length ids) h in
      let closed = close_sessions-closes tx.working s i x s_ok found own in
      let kept = (revoke_tokens_of-Extends ids at a.working s' s'_ok).closed i in
      (
        n_eq,
        ap (λ t. is_closed i t.working.sessions) (end ∙ b_eq)
            ∙ kept (ap (λ t. is_closed i t.working.sessions) a_eq ∙ closed),
      )

logout_all_sessions-closes :
    (ports : Ports) (draw : Draw) (u : ℕ) (from : Option ℕ) (tx tx' : Tx Store) (n i : ℕ)
    (x : AuthSession)
    → logout_all_sessions ports draw u from tx ≡ (ok n, tx')
    → find_session i tx.working.sessions ≡ some x
    → x.user_id ≡ u
    → (n ≡ length (open_ids u tx.working.sessions)) × (is_closed i tx'.committed.sessions ≡ true)
unfolding logout_all_sessions
logout_all_sessions-closes ports draw u from tx tx' n i x h found own =
    let h = or_rollback-returns _ h in
    let (t, _, h) = lift-then (clock_instant draw.now) _ h in
    let (m, a, revoked, h) = >>=-returns (Repository.revoke_all_for_user u (utc t)) _ tx h in
    let (_, b, recorded, h) = >>=-returns (record_event ports.audited _) _ a h in
    let (_, c, committed, h) = >>=-returns commit _ b h in
    let (m_eq, end) = pure-returns m h in
    let (count, closed) = revoke_all_for_user-closes u (utc t) tx a m i x revoked found own in
    (
      m_eq ∙ count,
      ap (λ t. is_closed i t.committed.sessions) (end ∙ commit-returns b committed)
          ∙ is_closed-of_record_event ports.audited _ i a recorded closed,
    )

-- A logout from all sessions that returns gives the number of the user's open sessions; and each
-- session of the user, open or not, is shut after it and after any further calls, whether they
-- return or raise: no access token of it is accepted at any time, and no refresh token of it can be
-- refreshed.
pub logged_out_everywhere :
    (ports : Ports) (draw : Draw) (u : ℕ) (from : Option ℕ) (s : Store) (n i : ℕ) (x : AuthSession)
    (calls : List Call)
    → (run (logout_all_sessions ports draw u from) s).0 ≡ ok n
    → find_session i s.sessions ≡ some x
    → x.user_id ≡ u
    → (n ≡ length (open_ids u s.sessions))
      × IsShut ports i (perform_all ports (logout_all draw u from ∷ calls) s)
unfolding run perform_all perform
logged_out_everywhere ports draw u from s n i x calls h found own =
    let tx : Tx Store = record { committed = s; working = s } in
    let tx' = (logout_all_sessions ports draw u from tx).1 in
    let (count, closed) =
      logout_all_sessions-closes ports draw u from tx tx' n i x (returned _ h) found own in
    (
      count,
      IsShut-of_closed ports i _ ((perform_all-Extends ports calls tx'.committed).closed i closed),
    )
