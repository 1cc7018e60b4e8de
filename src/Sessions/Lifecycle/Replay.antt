-- ===== src/Sessions/Lifecycle/Replay.antt =====
-- What happens when a used refresh token is presented.
use workflow_forge.Sessions.Repository
use workflow_forge.Sessions.Lifecycle.{
  detect_replay, Ports, Draw, record_event, refresh_failure, refresh_session,
  or_rollback_unless_replay, rotate,
}
use workflow_forge.Transaction.{Action, Tx, commit, raise, ◌>>=◌, continue, run, lift, gets}
use workflow_forge.Base.{
  Result, ℕ, ◌≡◌, err, ok, sym, Error, ap, refresh_token_replay, ◌∙◌, true, any, refl, false, ◌⊎◌,
  is_ok, inl, inr, Bool, if◌then◌else◌, subst, some, Option, or_raise, invalid_refresh_token,
  or_raise-eq-ok, some-injective,
}
use workflow_forge.Sessions.Store.{Store, find_token}
use workflow_forge.Transaction.Rules.{Quiet}
use workflow_forge.Sessions.Store.Tables.{is_closed, is_spent}
use workflow_forge.Sessions.Token.{RefreshToken}
use workflow_forge.Sessions.Claims.{TokenPair, clock_instant}
use workflow_forge.Time.{utc}
use workflow_forge.Sessions.Lifecycle.Guarantees.{revoke-returns, is_live_of}
use workflow_forge.Sessions.Lifecycle.Atomic.{
  Quiet-revoke, Quiet-record_event, refresh_failure_committed,
}
use workflow_forge.Sessions.Lifecycle.Refresh.{record_event-returns}
use workflow_forge.Text.{Text}
use workflow_forge.Transaction.Returns.{lift-returns}
use workflow_forge.Sessions.Lifecycle.Refused.{
  get_refresh_token_by_digest-returns, token_from_record-eq-ok,
}

-- Either the replay is raised with the session closed and none of its tokens live, or some other
-- step has failed and nothing is committed.
abbrev pub ReplayOutcome :
    {A : Type 0} (session_id : ℕ) (before : Store) → Result A × Tx Store → Type 0
ReplayOutcome i c p =
    ((p.0 ≡ err refresh_token_replay)
      × (is_closed i p.1.committed.sessions ≡ true)
      × (any (is_live_of i) p.1.committed.tokens ≡ false))
    ⊎ ((is_ok p.0 ≡ false) × (p.1.committed ≡ c))

bind-split :
    {A B : Type 0} (P : Result B × Tx Store → Type 0) (m : Action Store A) (f : A → Action Store B)
    (tx : Tx Store)
    → ((a : A) (mid : Tx Store) → m tx ≡ (ok a, mid) → P (f a mid))
    → ((e : Error) (mid : Tx Store) → m tx ≡ (err e, mid) → P (err e, mid))
    → P ((m >>= f) tx)
bind-split P m f tx returns raises = go (m tx).0 (m tx).1 refl
  where
    go : (r : Result _) (mid : Tx Store) → m tx ≡ (r, mid) → P (continue r f mid)
    go (ok a) mid e = returns a mid e
    go (err x) mid e = raises x mid e

Quiet-committed :
    {A : Type 0} {m : Action Store A} (q : Quiet m) (tx mid : Tx Store) {r : Result A}
    → m tx ≡ (r, mid)
    → mid.committed ≡ tx.committed
Quiet-committed q tx mid h = sym (ap (λ p. p.1.committed) h) ∙ q.at tx

detect_replay-outcome :
    (ports : Ports) (draw : Draw) (t : ℕ) (current : RefreshToken) (tx : Tx Store)
    → ReplayOutcome current.session_id tx.committed (detect_replay ports draw t current tx)
unfolding detect_replay commit raise
detect_replay-outcome ports draw t current tx =
    let i = current.session_id in
    let P : Result TokenPair × Tx Store → Type 0 = ReplayOutcome i tx.committed in
    bind-split P (Repository.revoke i (utc t)) _ tx
      (λ x a h.
        let (closed, dead) = revoke-returns i (utc t) tx a x h in
        let a_kept = Quiet-committed (Quiet-revoke i (utc t)) tx a h in
        bind-split P (record_event ports.audited _) _ a
          (λ _ b k.
            let (b_tokens, b_sessions) = record_event-returns ports.audited _ a k in
            let b_kept = Quiet-committed (Quiet-record_event ports.audited _) a b k ∙ a_kept in
            bind-split P (record_event ports.audited _) _ b
              (λ _ c l.
                let (c_tokens, c_sessions) = record_event-returns ports.audited _ b l in
                inl (
                  refl,
                  ap (is_closed i) (c_sessions ∙ b_sessions) ∙ closed,
                  ap (any (is_live_of i)) (c_tokens ∙ b_tokens) ∙ dead,
                ))
              (λ e c l.
                inr (refl, Quiet-committed (Quiet-record_event ports.audited _) b c l ∙ b_kept)))
          (λ e b k.
            inr (refl, Quiet-committed (Quiet-record_event ports.audited _) a b k ∙ a_kept)))
      (λ e a h. inr (refl, Quiet-committed (Quiet-revoke i (utc t)) tx a h))

refresh_branch-outcome :
    (ports : Ports) (draw : Draw) (t digest : ℕ) (current : RefreshToken) (b : Bool) (tx : Tx Store)
    → b ≡ true
    → ReplayOutcome current.session_id tx.committed
        ((if b then detect_replay ports draw t current else rotate ports draw t digest current) tx)
refresh_branch-outcome ports draw t digest current true tx h =
    detect_replay-outcome ports draw t current tx
refresh_branch-outcome ports draw t digest current false tx h = cc

or_rollback_unless_replay-outcome :
    {A : Type 0} (i : ℕ) (c : Store) (p : Result A × Tx Store)
    → ReplayOutcome i c p
    → ReplayOutcome i c (p.0, refresh_failure p.0 p.1)
or_rollback_unless_replay-outcome i c p h =
    subst
      (λ w.
        ((p.0 ≡ err refresh_token_replay)
          × (is_closed i w.sessions ≡ true)
          × (any (is_live_of i) w.tokens ≡ false))
        ⊎ ((is_ok p.0 ≡ false) × (w ≡ c)))
      (sym (refresh_failure_committed p.0 p.1)) h

refresh_session-outcome :
    (ports : Ports) (draw : Draw) (token : Text) (tx : Tx Store) (row : RefreshToken)
    → find_token (ports.digest_token token) tx.working.tokens ≡ some row
    → is_spent row ≡ true
    → ReplayOutcome row.session_id tx.committed (refresh_session ports draw token tx)
unfolding refresh_session or_rollback_unless_replay lift Repository.get_refresh_token_by_digest gets
refresh_session-outcome ports draw token tx row found spent =
    let P : Result TokenPair × Tx Store → Type 0 = ReplayOutcome row.session_id tx.committed in
    or_rollback_unless_replay-outcome row.session_id tx.committed _ (
      bind-split P (lift (clock_instant draw.now)) _ tx
        (λ t a h.
          bind-split P (Repository.get_refresh_token_by_digest (ports.digest_token token)) _ a
            (λ o b k.
              bind-split P (lift (or_raise o invalid_refresh_token)) _ b
                (λ current c l. branch t a b c o current h k l) (λ e c l. inr (refl, cc)))
            (λ e b k. inr (refl, cc)))
        (λ e a h. inr (refl, cc)))
  where
    branch :
        (t : ℕ) (a b c : Tx Store) (o : Option RefreshToken) (current : RefreshToken)
        → lift (clock_instant draw.now) tx ≡ (ok t, a)
        → Repository.get_refresh_token_by_digest (ports.digest_token token) a ≡ (ok o, b)
        → lift (or_raise o invalid_refresh_token) b ≡ (ok current, c)
        → ReplayOutcome row.session_id tx.committed (
            (if is_spent current
                then detect_replay ports draw t current
                else rotate ports draw t (ports.digest_token token) current)
              c)
    branch t a b c o current h k l =
        let (_, a_eq) = lift-returns (clock_instant draw.now) h in
        let (l_eq, c_eq) = lift-returns (or_raise o invalid_refresh_token) l in
        let o_eq = or_raise-eq-ok o _ l_eq in
        let (row', found', read, b_eq) =
          get_refresh_token_by_digest-returns (ports.digest_token token) a
            (k ∙ ap (λ x. (ok x, b)) o_eq) in
        let same : row' ≡ row = some-injective (
          sym found'
          ∙ ap (λ x. find_token (ports.digest_token token) x.working.tokens) a_eq
          ∙ found) in
        let (session, _, _, spent', _, _, _) = token_from_record-eq-ok row' current read in
        let c_tx : c ≡ tx = c_eq ∙ b_eq ∙ a_eq in
        let outcome =
          refresh_branch-outcome ports draw t (ports.digest_token token) current (is_spent current)
            c (spent' ∙ ap is_spent same ∙ spent) in
        subst
          (λ w. ReplayOutcome row.session_id w.committed (
            (if is_spent current
                then detect_replay ports draw t current
                else rotate ports draw t (ports.digest_token token) current)
              c))
          c_tx
          (subst
            (λ i. ReplayOutcome i c.committed (
              (if is_spent current
                  then detect_replay ports draw t current
                  else rotate ports draw t (ports.digest_token token) current)
                c))
            (session ∙ ap (λ x. x.session_id) same) outcome)

-- Presenting a refresh token that has been used never returns. Either the replay is raised, the
-- session of the token is revoked and no token of it is left unused and unrevoked; or some other
-- step has failed, and the stored state is the one before the call.
pub replay_closes_session :
    (ports : Ports) (draw : Draw) (token : Text) (s : Store) (row : RefreshToken)
    → find_token (ports.digest_token token) s.tokens ≡ some row
    → is_spent row ≡ true
    → (((run (refresh_session ports draw token) s).0 ≡ err refresh_token_replay)
        × (is_closed row.session_id (run (refresh_session ports draw token) s).1.sessions ≡ true)
        × (any (is_live_of row.session_id) (run (refresh_session ports draw token) s).1.tokens
            ≡ false))
      ⊎ ((is_ok (run (refresh_session ports draw token) s).0 ≡ false)
          × ((run (refresh_session ports draw token) s).1 ≡ s))
unfolding run
replay_closes_session ports draw token s row found spent =
    refresh_session-outcome ports draw token (record { committed = s; working = s }) row found spent
