-- ===== src/Sessions/Store/Tables.antt =====
-- How statements change the tables: a session that is revoked stays revoked, and a token that is
-- used, replaced or revoked stays so.
use workflow_forge.Base.{
  List, Bool, ℕ, ◌∷◌, none, some, false, map, [], is_some, ◌≡◌, true, arith, ◌||◌,
}
use workflow_forge.Sessions.Session.{AuthSession}
use workflow_forge.Sessions.Token.{RefreshToken}
use workflow_forge.Sessions.Store.{find_session, find_token, put_session}

-- The table has the session, and it is revoked.
unfoldable pub is_closed : ℕ → List AuthSession → Bool
unfolding find_session
is_closed i xs = elim (find_session i xs) [ none ↦ false | some x ↦ is_some x.revoked_at ]

-- The table has a token of that digest, with the property.
unfoldable pub is_token : (RefreshToken → Bool) → ℕ → List RefreshToken → Bool
unfolding find_token
is_token p digest ts = elim (find_token digest ts) [ none ↦ false | some t ↦ p t ]

abbrev pub is_spent : RefreshToken → Bool
is_spent t = is_some t.used_at || is_some t.replaced_by_token_id

abbrev pub is_revoked : RefreshToken → Bool
is_revoked t = is_some t.revoked_at

pub is_closed-insert :
    (i : ℕ) (x : AuthSession) (xs : List AuthSession)
    → is_some (find_session x.id xs) ≡ false
    → is_closed i xs ≡ true
    → is_closed i (x ∷ xs) ≡ true
unfolding is_closed find_session
is_closed-insert i x xs new h = ground arith

pub is_token-insert :
    (p : RefreshToken → Bool) (d : ℕ) (t : RefreshToken) (ts : List RefreshToken)
    → is_some (find_token t.token_digest ts) ≡ false
    → is_token p d ts ≡ true
    → is_token p d (t ∷ ts) ≡ true
unfolding is_token find_token
is_token-insert p d t ts new h = ground arith

pub is_closed-put_session :
    (i : ℕ) (x : AuthSession) (xs : List AuthSession)
    → is_some x.revoked_at ≡ true
    → is_closed i xs ≡ true
    → is_closed i (put_session x xs) ≡ true
unfolding is_closed find_session put_session
is_closed-put_session i x [] revoked h = h
is_closed-put_session i x (y ∷ ys) revoked h = ground (arith, is_closed-put_session i x ys revoked)

pub is_closed-map :
    (f : AuthSession → AuthSession) (i : ℕ) (xs : List AuthSession)
    → ((x : AuthSession) → (f x).id ≡ x.id)
    → ((x : AuthSession) → is_some x.revoked_at ≡ true → is_some (f x).revoked_at ≡ true)
    → is_closed i xs ≡ true
    → is_closed i (map f xs) ≡ true
unfolding is_closed find_session
is_closed-map f i [] same up h = h
is_closed-map f i (x ∷ xs) same up h = ground (arith, same x, up x, is_closed-map f i xs same up)

pub is_token-map :
    (p : RefreshToken → Bool) (f : RefreshToken → RefreshToken) (d : ℕ) (ts : List RefreshToken)
    → ((t : RefreshToken) → (f t).token_digest ≡ t.token_digest)
    → ((t : RefreshToken) → p t ≡ true → p (f t) ≡ true)
    → is_token p d ts ≡ true
    → is_token p d (map f ts) ≡ true
unfolding is_token find_token
is_token-map p f d [] same up h = h
is_token-map p f d (t ∷ ts) same up h = ground (arith, same t, up t, is_token-map p f d ts same up)
