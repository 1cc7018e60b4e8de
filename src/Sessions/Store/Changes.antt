-- ===== src/Sessions/Store/Changes.antt =====
-- Every statement of the repository moves the tables forward: `Extends` is preserved by inserts, by
-- the conditional updates and by the rewriting of a session that is revoked.
use workflow_forge.Transaction.Growth.{IsPreorder}
use workflow_forge.Audit.{append, AuditEvent}
use workflow_forge.Sessions.Store.{
  token_violation, revoke_tokens_of, revoke_current_refresh_tokens, consume_token, update_tokens,
  close_sessions, insert_session, insert_token, write_session, Store, append_event,
  session_violation, Violation, find_session, unless_violated, find_token, is_open_of,
  session_check, count, closed_at, is_rotatable,
}
use workflow_forge.Sessions.Token.{RefreshToken}
use workflow_forge.Base.{
  Option, List, is_some, ◌≡◌, ℕ, Bool, ok, if◌then◌else◌, Error, true, none, arith, >>=-eq-ok, ◌∷◌,
  ok-transport, refl, [], some, raise_if, false, any, not, ◌&&◌, ◌==◌,
}
use workflow_forge.Sessions.Session.{AuthSession}
use workflow_forge.Sessions.Store.Tables.{
  is_closed, is_spent, is_revoked, is_token, is_token-insert, is_closed-insert, is_closed-map,
  is_closed-put_session, is_token-map,
}
use workflow_forge.Time.{DateTime}

-- A closed session stays closed; a token that is spent or revoked stays so.
pub record Extends (s s' : Store) : Type 0 where
  pub closed : (i : ℕ) → is_closed i s.sessions ≡ true → is_closed i s'.sessions ≡ true
  pub spent : (d : ℕ) → is_token is_spent d s.tokens ≡ true → is_token is_spent d s'.tokens ≡ true
  pub revoked :
      (d : ℕ) → is_token is_revoked d s.tokens ≡ true → is_token is_revoked d s'.tokens ≡ true

pub Extends-IsPreorder : IsPreorder Extends
Extends-IsPreorder = record {
  reflexive = λ s. record { closed = λ i h. h; spent = λ d h. h; revoked = λ d h. h };
  transitive = λ h k. record {
    closed = λ i x. k.closed i (h.closed i x);
    spent = λ d x. k.spent d (h.spent d x);
    revoked = λ d x. k.revoked d (h.revoked d x);
  };
}

pub unless_violated-eq-ok {ℓ} :
    {A : Type ℓ} (v : Option Violation) (e : Violation → Error) (a : A) {b : A}
    → unless_violated v e a ≡ ok b
    → (v ≡ none) × (ok a ≡ ok b)
unless_violated-eq-ok none e a h = (refl, h)
unless_violated-eq-ok (some v) e a h = cc

session_violation-eq-none :
    (s : Store) (x : AuthSession)
    → session_violation s x ≡ none
    → is_some (find_session x.id s.sessions) ≡ false
unfolding session_violation
session_violation-eq-none s x h = ground arith

pub token_violation-eq-none :
    (s : Store) (t : RefreshToken)
    → token_violation s t ≡ none
    → is_some (find_token t.token_digest s.tokens) ≡ false
unfolding token_violation
token_violation-eq-none s t h = ground arith

Extends-new_session :
    (x : AuthSession) (s : Store)
    → session_violation s x ≡ none
    → Extends s (record s { sessions = x ∷ s.sessions })
Extends-new_session x s v = record {
  closed = λ i h. is_closed-insert i x s.sessions (session_violation-eq-none s x v) h;
  spent = λ d h. h;
  revoked = λ d h. h;
}

Extends-new_token :
    (t : RefreshToken) (s : Store)
    → token_violation s t ≡ none
    → Extends s (record s { tokens = t ∷ s.tokens })
Extends-new_token t s v = record {
  closed = λ i h. h;
  spent = λ d h. is_token-insert is_spent d t s.tokens (token_violation-eq-none s t v) h;
  revoked = λ d h. is_token-insert is_revoked d t s.tokens (token_violation-eq-none s t v) h;
}

pub insert_session-Extends :
    (x : AuthSession) (t : RefreshToken) (s s' : Store)
    → insert_session x t s ≡ ok s'
    → Extends s s'
unfolding insert_session
insert_session-Extends x t s s' h =
    let (a, a_ok, h) = >>=-eq-ok (unless_violated (session_violation s x) _ _) _ h in
    let (v, a_eq) = unless_violated-eq-ok (session_violation s x) _ _ a_ok in
    let (w, b_eq) = unless_violated-eq-ok (token_violation a t) _ _ h in
    Extends-IsPreorder.transitive (ok-transport (Extends s) a_eq (Extends-new_session x s v))
      (ok-transport (Extends a) b_eq (Extends-new_token t a w))

pub insert_token-Extends :
    (t : RefreshToken) (s s' : Store) → insert_token t s ≡ ok s' → Extends s s'
unfolding insert_token
insert_token-Extends t s s' h =
    let (v, eq) = unless_violated-eq-ok (token_violation s t) _ _ h in
    ok-transport (Extends s) eq (Extends-new_token t s v)

-- An update of tokens that keeps digests, and does not take back a use or a revocation.
pub record IsForward (set : RefreshToken → RefreshToken) : Type 0 where
  pub digest : (t : RefreshToken) → (set t).token_digest ≡ t.token_digest
  pub spent : (t : RefreshToken) → is_spent t ≡ true → is_spent (set t) ≡ true
  pub revoked : (t : RefreshToken) → is_revoked t ≡ true → is_revoked (set t) ≡ true

IsForward-where :
    (where_ : RefreshToken → Bool) (set : RefreshToken → RefreshToken)
    → IsForward set
    → IsForward (λ t. if where_ t then set t else t)
IsForward-where where_ set f = record {
  digest = λ t. ground (arith, f.digest t);
  spent = λ t h. ground (arith, f.spent t);
  revoked = λ t h. ground (arith, f.revoked t);
}

pub update_tokens-Extends :
    (where_ : RefreshToken → Bool) (set : RefreshToken → RefreshToken) (s s' : Store)
    → IsForward set
    → update_tokens where_ set s ≡ ok s'
    → Extends s s'
unfolding update_tokens
update_tokens-Extends where_ set s s' f h =
    let g = IsForward-where where_ set f in
    let (_, _, h) = >>=-eq-ok (raise_if (any _ s.tokens) _) _ h in
    ok-transport (Extends s) h (record {
      closed = λ i h. h;
      spent = λ d h. is_token-map is_spent _ d s.tokens g.digest g.spent h;
      revoked = λ d h. is_token-map is_revoked _ d s.tokens g.digest g.revoked h;
    })

pub revoke_current_refresh_tokens-Extends :
    (i : ℕ) (at : DateTime) (s s' : Store)
    → revoke_current_refresh_tokens i at s ≡ ok s'
    → Extends s s'
unfolding revoke_current_refresh_tokens
revoke_current_refresh_tokens-Extends i at s s' h =
    update_tokens-Extends _ _ s s'
      (record { digest = λ t. refl; spent = λ t h. h; revoked = λ t h. refl }) h

pub revoke_tokens_of-Extends :
    (is : List ℕ) (at : DateTime) (s s' : Store) → revoke_tokens_of is at s ≡ ok s' → Extends s s'
unfolding revoke_tokens_of
revoke_tokens_of-Extends [] at s s' h = ok-transport (Extends s) h (Extends-IsPreorder.reflexive s)
revoke_tokens_of-Extends (i ∷ is) at s s' h =
    let (a, a_ok, h) = >>=-eq-ok (revoke_current_refresh_tokens i at s) _ h in
    Extends-IsPreorder.transitive (revoke_current_refresh_tokens-Extends i at s a a_ok)
      (revoke_tokens_of-Extends is at a s' h)

pub consume_token-Extends :
    (i d g r : ℕ) (at : DateTime) (s s' : Store) → consume_token i d g r at s ≡ ok s' → Extends s s'
unfolding consume_token
consume_token-Extends i d g r at s s' h =
    let (a, a_ok, h) = >>=-eq-ok (update_tokens _ _ s) _ h in
    let (_, _, h) =
      >>=-eq-ok (raise_if (not (count (is_rotatable i d g at s) s.tokens == 1)) _) _ h in
    ok-transport (Extends s) h (
      update_tokens-Extends _ _ s a
        (record { digest = λ t. refl; spent = λ t h. refl; revoked = λ t h. h }) a_ok)

pub write_session-Extends :
    (x : AuthSession) (s s' : Store)
    → is_some x.revoked_at ≡ true
    → write_session x s ≡ ok s'
    → Extends s s'
unfolding write_session
write_session-Extends x s s' revoked h =
    let (_, _, h) = >>=-eq-ok (raise_if (not (session_check x)) _) _ h in
    ok-transport (Extends s) h (record {
      closed = λ i h. is_closed-put_session i x s.sessions revoked h;
      spent = λ d h. h;
      revoked = λ d h. h;
    })

pub close_sessions-Extends :
    (u : ℕ) (at : DateTime) (s s' : Store) → close_sessions u at s ≡ ok s' → Extends s s'
unfolding close_sessions
close_sessions-Extends u at s s' h =
    let (_, _, h) =
      >>=-eq-ok
        (raise_if (any (λ x. is_open_of u x && not (session_check (closed_at at x))) s.sessions) _)
        _ h in
    ok-transport (Extends s) h (record {
      closed = λ i h. is_closed-map _ i s.sessions (λ x. ground arith) (λ x h. ground arith) h;
      spent = λ d h. h;
      revoked = λ d h. h;
    })

pub append_event-Extends : (e : AuditEvent) (s s' : Store) → append_event e s ≡ ok s' → Extends s s'
unfolding append_event
append_event-Extends e s s' h =
    let (_, _, h) = >>=-eq-ok (append e s.events) _ h in
    ok-transport (Extends s) h (record { closed = λ i h. h; spent = λ d h. h; revoked = λ d h. h })

pub append_event-eq-ok :
    (e : AuditEvent) (s s' : Store)
    → append_event e s ≡ ok s'
    → (s'.tokens ≡ s.tokens) × (s'.sessions ≡ s.sessions)
unfolding append_event
append_event-eq-ok e s s' h = let (_, _, h) = >>=-eq-ok (append e s.events) _ h in (cc, cc)
