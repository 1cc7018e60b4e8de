-- ===== src/Sessions/Lifecycle/Replacement.antt =====
-- The look-ups of a rotation, the replacement that it builds, and the insertion of it.
use workflow_forge.Sessions.Token
use workflow_forge.Sessions.Token.{RefreshToken, token_from_record}
use workflow_forge.Base.{
  ℕ, List, ◌≡◌, ◌∷◌, is_some, false, ok, some, ◌≤◌, is_none, arith, ◌==◌, true, ◌+◌, ap, sym,
  Option-cases, inl, >>=-eq-ok, ok-injective, inr, raise_if, ◌∙◌, raise_if-eq-ok,
}
use workflow_forge.Sessions.Lifecycle.{Ports, refresh_expiry}
use workflow_forge.Sessions.Repository.{find_active}
use workflow_forge.Sessions.Store.{
  find_token, insert_token, Store, find_session, token_violation, session_is_active,
}
use workflow_forge.Time.{DateTime, instant, before}
use workflow_forge.Sessions.Session.{AuthSession}
use workflow_forge.Sessions.Store.Changes.{unless_violated-eq-ok, token_violation-eq-none}
use workflow_forge.Sessions.Store.Tables.{is_spent, is_revoked}
use workflow_forge.Sessions.Token.Laws.{post_init-eq-ok}

-- What `find_active` returns is the row of that key, neither revoked nor expired.
pub find_active-eq-some :
    (i : ℕ) (at : DateTime) (xs : List AuthSession) (x : AuthSession)
    → find_active i at xs ≡ some x
    → (find_session i xs ≡ some x) × (is_none x.revoked_at ≡ true) × (before at x.expires_at ≡ true)
unfolding find_active
find_active-eq-some i at xs x h = elim (Option-cases (find_session i xs)) [
  | inl n ↦ ground arith
  | inr (y, e) ↦ ground arith
]

pub session_is_active-of_found :
    (i : ℕ) (at : DateTime) (xs : List AuthSession) (x : AuthSession)
    → find_session i xs ≡ some x
    → is_none x.revoked_at ≡ true
    → before at x.expires_at ≡ true
    → session_is_active i at xs ≡ true
session_is_active-of_found i at xs x h n b = ground arith

pub insert_token-eq-ok :
    (t : RefreshToken) (s s' : Store)
    → insert_token t s ≡ ok s'
    → (s'.tokens ≡ t ∷ s.tokens)
      × (s'.sessions ≡ s.sessions)
      × (is_some (find_token t.token_digest s.tokens) ≡ false)
unfolding insert_token
insert_token-eq-ok t s s' h =
    let (v, eq) = unless_violated-eq-ok (token_violation s t) _ _ h in
    (
      ap (λ x. x.tokens) (sym (ok-injective eq)),
      ap (λ x. x.sessions) (sym (ok-injective eq)),
      token_violation-eq-none s t v,
    )

pub find_token-cons :
    (d : ℕ) (t : RefreshToken) (ts : List RefreshToken) (row : RefreshToken)
    → is_some (find_token t.token_digest ts) ≡ false
    → find_token d ts ≡ some row
    → find_token d (t ∷ ts) ≡ some row
unfolding find_token
find_token-cons d t ts row new found = ground arith

pub find_token-first :
    (t : RefreshToken) (ts : List RefreshToken) → find_token t.token_digest (t ∷ ts) ≡ some t
unfolding find_token
find_token-first t ts = ground arith

pub replacement-eq-ok :
    (x : RefreshToken) (i d : ℕ) (a b : DateTime) (t : RefreshToken)
    → Token.replacement x i d a b ≡ ok t
    → (t.token_digest ≡ d)
      × ((t.token_digest == x.token_digest) ≡ false)
      × (t.session_id ≡ x.session_id)
      × (t.token_family_id ≡ x.token_family_id)
      × (t.generation ≡ x.generation + 1)
      × (is_spent t ≡ false)
      × (is_revoked t ≡ false)
      × (instant t.expires_at ≡ instant b)
unfolding Token.replacement
replacement-eq-ok x i d a b t h =
    let (_, differs, h) = >>=-eq-ok (raise_if (d == x.token_digest) _) _ h in
    let (_, session, family, digest, generation, used, revoked, replaced, expires) =
      post_init-eq-ok _ t h in
    (
      digest,
      ap (λ n. n == x.token_digest) digest ∙ raise_if-eq-ok (d == x.token_digest) _ differs,
      session,
      family,
      generation,
      ground arith,
      ground arith,
      expires,
    )

pub refresh_expiry-le :
    (ports : Ports) (t : ℕ) (x : AuthSession)
    → instant (refresh_expiry ports t x) ≤ instant x.expires_at
refresh_expiry-le ports t x = ground arith
