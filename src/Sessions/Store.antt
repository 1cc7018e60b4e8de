-- ===== src/Sessions/Store.antt =====
-- The tables `auth_sessions` and `refresh_tokens` with their constraints, and
-- `SqlAlchemySessionRepository`
-- (packages/infrastructure/src/workflowforge_infrastructure/identity/models.py and repository.py).
-- A row holds the fields of the domain object. A table is a list in which the newest row stands first.
pub mod Tables
pub mod Changes
pub mod Consumption
use workflow_forge.Base.{
  List, Bool, Option, Error, ℕ, ◌==◌, ◌∷◌, none, if◌then◌else◌, duplicate_refresh_token_digest,
  some, Result, not, false, missing_identity_reference, ◌>>=◌, map, refresh_rotation_conflict, [],
  ◌+◌, ◌>>◌, ok, ◌&&◌, err, any, is_none, raise_if, is_some, integrity_error,
}
use workflow_forge.Sessions.Session.{AuthSession, precedes}
use workflow_forge.Sessions.Token.{RefreshToken}
use workflow_forge.Time.{DateTime, before, at_or_before}
use workflow_forge.Audit.{AuditEvent, append}

pub record Store : Type 0 where
  pub users : List ℕ  -- the primary keys of the table of users
  pub sessions : List AuthSession
  pub tokens : List RefreshToken
  pub events : List AuditEvent

-- The constraint that a statement violates.
pub data Violation : Type 0 where
  check primary_key token_hash session_generation foreign_key : Violation

unfoldable pub find_session : ℕ → List AuthSession → Option AuthSession
find_session i [] = none
find_session i (x ∷ xs) = if x.id == i then some x else find_session i xs

unfoldable pub find_token : ℕ → List RefreshToken → Option RefreshToken
find_token digest [] = none
find_token digest (t ∷ ts) = if t.token_digest == digest then some t else find_token digest ts

-- The check constraints of `auth_sessions` and of `refresh_tokens`.
unfoldable pub session_check : AuthSession → Bool
session_check x =
    before x.created_at x.expires_at
    && at_or_before x.created_at x.updated_at
    && not (precedes x.revoked_at x.created_at)

unfoldable pub token_check : RefreshToken → Bool
token_check t =
    before t.issued_at t.expires_at
    && not (precedes t.used_at t.issued_at)
    && not (precedes t.revoked_at t.issued_at)

unfoldable pub session_violation : Store → AuthSession → Option Violation
unfolding find_session
session_violation s x =
    if not (session_check x)
    then some check
    else if is_some (find_session x.id s.sessions)
    then some primary_key
    else if not (any (λ u. u == x.user_id) s.users)
    then some foreign_key
    else none

unfoldable pub token_violation : Store → RefreshToken → Option Violation
unfolding find_session find_token
token_violation s t =
    if not (token_check t)
    then some check
    else if any (λ u. u.id == t.id) s.tokens
    then some primary_key
    else if is_some (find_token t.token_digest s.tokens)
    then some token_hash
    else if any (λ u. u.session_id == t.session_id && u.generation == t.generation) s.tokens
    then some session_generation
    else if not (is_some (find_session t.session_id s.sessions))
    then some foreign_key
    else none

-- `_raise_session_integrity_error` and `_raise_refresh_token_integrity_error`
abbrev pub session_integrity_error : Violation → Error
session_integrity_error token_hash = duplicate_refresh_token_digest
session_integrity_error _ = missing_identity_reference

abbrev pub refresh_token_integrity_error : Violation → Error
refresh_token_integrity_error token_hash = duplicate_refresh_token_digest
refresh_token_integrity_error _ = refresh_rotation_conflict

abbrev pub unless_violated {ℓ} :
    {A : Type ℓ} → Option Violation → (Violation → Error) → A → Result A
unless_violated none e a = ok a
unless_violated (some v) e a = err (e v)

-- `INSERT` of a session with its first token, in one flush
unfoldable pub insert_session : AuthSession → RefreshToken → Store → Result Store
insert_session x t s = do
  s' ←
      unless_violated (session_violation s x) session_integrity_error
        (record s { sessions = x ∷ s.sessions })
  unless_violated (token_violation s' t) session_integrity_error
      (record s' { tokens = t ∷ s'.tokens })

unfoldable pub insert_token : RefreshToken → Store → Result Store
insert_token t s =
    unless_violated (token_violation s t) refresh_token_integrity_error
      (record s { tokens = t ∷ s.tokens })

-- `UPDATE refresh_tokens SET … WHERE …`, which fails if a new row breaks a check constraint
unfoldable pub update_tokens :
    (RefreshToken → Bool) → (RefreshToken → RefreshToken) → Store → Result Store
update_tokens where_ set s = do
  let tokens = map (λ t. if where_ t then set t else t) s.tokens
  raise_if (any (λ t. where_ t && not (token_check (set t))) s.tokens) integrity_error
  ok (record s { tokens = tokens })

-- The row with the primary key of the session is rewritten.
unfoldable pub put_session : AuthSession → List AuthSession → List AuthSession
put_session x [] = []
put_session x (y ∷ ys) = if y.id == x.id then x ∷ ys else y ∷ put_session x ys

unfoldable pub write_session : AuthSession → Store → Result Store
write_session x s = do
  raise_if (not (session_check x)) integrity_error
  ok (record s { sessions = put_session x s.sessions })

-- `_revoke_current_refresh_tokens`
unfoldable pub revoke_current_refresh_tokens : ℕ → DateTime → Store → Result Store
revoke_current_refresh_tokens session_id revoked_at =
    update_tokens (λ t. t.session_id == session_id && is_none t.used_at && is_none t.revoked_at)
      (λ t. record t { revoked_at = some revoked_at })

-- The sessions that `revoke_all_for_user` updates.
abbrev pub is_open_of : ℕ → AuthSession → Bool
is_open_of user_id x = x.user_id == user_id && is_none x.revoked_at

abbrev pub closed_at : DateTime → AuthSession → AuthSession
closed_at revoked_at x = record x { revoked_at = some revoked_at; updated_at = revoked_at }

unfoldable pub close_sessions : ℕ → DateTime → Store → Result Store
close_sessions user_id revoked_at s = do
  raise_if
      (any (λ x. is_open_of user_id x && not (session_check (closed_at revoked_at x))) s.sessions)
      integrity_error
  ok (record s {
    sessions = map (λ x. if is_open_of user_id x then closed_at revoked_at x else x) s.sessions;
  })

-- The primary keys that the `UPDATE` returns.
unfoldable pub open_ids : ℕ → List AuthSession → List ℕ
open_ids user_id [] = []
open_ids user_id (x ∷ xs) =
    let rest = open_ids user_id xs in if is_open_of user_id x then x.id ∷ rest else rest

unfoldable pub revoke_tokens_of : List ℕ → DateTime → Store → Result Store
revoke_tokens_of [] revoked_at s = ok s
revoke_tokens_of (i ∷ is) revoked_at s = do
  s' ← revoke_current_refresh_tokens i revoked_at s
  revoke_tokens_of is revoked_at s'

-- The condition of the `UPDATE` in `rotate_refresh_token`; the row of its session is joined by the
-- primary key.
abbrev pub session_is_active : ℕ → DateTime → List AuthSession → Bool
session_is_active i at xs = elim (find_session i xs) [
  | none ↦ false
  | some x ↦ is_none x.revoked_at && before at x.expires_at
]

unfoldable pub is_rotatable :
    (session_id expected_digest expected_generation : ℕ) → DateTime → Store → RefreshToken → Bool
unfolding find_session
is_rotatable session_id expected_digest expected_generation at s t =
    t.session_id == session_id
    && t.token_digest == expected_digest
    && t.generation == expected_generation
    && is_none t.used_at
    && is_none t.revoked_at
    && is_none t.replaced_by_token_id
    && before at t.expires_at
    && session_is_active t.session_id at s.sessions

unfoldable pub count {ℓ} : {A : Type ℓ} → (A → Bool) → List A → ℕ
count p [] = 0
count p (x ∷ xs) = let n = count p xs in if p x then n + 1 else n

abbrev pub consumed : ℕ → DateTime → RefreshToken → RefreshToken
consumed replacement_id at t = record t {
  used_at = some at;
  replaced_by_token_id = some replacement_id;
}

-- The conditional `UPDATE` of `rotate_refresh_token`, which must hit one row.
unfoldable pub consume_token :
    (session_id expected_digest expected_generation replacement_id : ℕ)
    → DateTime
    → Store
    → Result Store
unfolding is_rotatable
consume_token session_id expected_digest expected_generation replacement_id at s = do
  let hit = is_rotatable session_id expected_digest expected_generation at s
  s' ← update_tokens hit (consumed replacement_id at) s
  raise_if (not (count hit s.tokens == 1)) refresh_rotation_conflict
  ok s'

-- An audit event goes into the same transaction.
unfoldable pub append_event : AuditEvent → Store → Result Store
append_event event s = do events ← append event s.events; ok (record s { events = events })
