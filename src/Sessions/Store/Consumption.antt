-- ===== src/Sessions/Store/Consumption.antt =====
-- What the conditional update of a rotation does to the token that it consumes.
use workflow_forge.Sessions.Store.{
  update_tokens, find_token, count, consume_token, is_rotatable, Store, consumed, token_check,
}
use workflow_forge.Sessions.Token.{RefreshToken}
use workflow_forge.Base.{
  ℕ, Bool, List, ◌≡◌, any, some, ok, map, ◌∷◌, arith, [], if◌then◌else◌, >>=-eq-ok, raise_if, refl,
  not, ◌&&◌, ◌==◌, ok-injective, ap, sym, ◌∙◌, raise_if-eq-ok, err, false,
  refresh_rotation_conflict, ◌≤◌,
}
use workflow_forge.Time.{DateTime, instant}

pub find_token-digest :
    (d : ℕ) (ts : List RefreshToken) (t : RefreshToken)
    → find_token d ts ≡ some t
    → t.token_digest ≡ d
unfolding find_token
find_token-digest d [] t h = cc
find_token-digest d (u ∷ ts) t h = ground (arith, find_token-digest d ts t)

pub find_token-map :
    (f : RefreshToken → RefreshToken) (d : ℕ) (ts : List RefreshToken) (t : RefreshToken)
    → ((u : RefreshToken) → (f u).token_digest ≡ u.token_digest)
    → find_token d ts ≡ some t
    → find_token d (map f ts) ≡ some (f t)
unfolding find_token
find_token-map f d [] t same h = cc
find_token-map f d (u ∷ ts) t same h = ground (arith, same u, find_token-map f d ts t same)

-- The rows of an update that returns.
pub update_tokens-eq-ok :
    (where_ : RefreshToken → Bool) (set : RefreshToken → RefreshToken) (s s' : Store)
    → update_tokens where_ set s ≡ ok s'
    → (s'.tokens ≡ map (λ t. if where_ t then set t else t) s.tokens) × (s'.sessions ≡ s.sessions)
unfolding update_tokens
update_tokens-eq-ok where_ set s s' h =
    let (_, _, h) =
      >>=-eq-ok (raise_if (any (λ t. where_ t && not (token_check (set t))) s.tokens) _) _ h in
    (cc, cc)

-- After a rotation a second one of the same digest and generation hits no row.
pub consume_token-eq-ok :
    (i d g r : ℕ) (at : DateTime) (s s' : Store)
    → consume_token i d g r at s ≡ ok s'
    → (s'.tokens ≡ map (λ t. if is_rotatable i d g at s t then consumed r at t else t) s.tokens)
      × (s'.sessions ≡ s.sessions)
      × (count (is_rotatable i d g at s) s.tokens ≡ 1)
unfolding consume_token
consume_token-eq-ok i d g r at s s' h =
    let (a, a_ok, h) = >>=-eq-ok (update_tokens (is_rotatable i d g at s) (consumed r at) s) _ h in
    let (_, one, h) =
      >>=-eq-ok (raise_if (not (count (is_rotatable i d g at s) s.tokens == 1)) _) _ h in
    let (tokens, sessions) = update_tokens-eq-ok (is_rotatable i d g at s) _ s a a_ok in
    let same = ok-injective h in
    (
      ap (λ x. x.tokens) (sym same) ∙ tokens,
      ap (λ x. x.sessions) (sym same) ∙ sessions,
      ground (arith, raise_if-eq-ok _ _ one),
    )

pub none_left :
    (i d g r : ℕ) (at later : DateTime) (s s' : Store) (ts : List RefreshToken)
    → s'.sessions ≡ s.sessions
    → instant at ≤ instant later
    → count
        (is_rotatable i d g later s')
        (map (λ t. if is_rotatable i d g at s t then consumed r at t else t) ts)
      ≡ 0
unfolding count is_rotatable
none_left i d g r at later s s' [] same le = refl
none_left i d g r at later s s' (t ∷ ts) same le =
    ground (arith, none_left i d g r at later s s' ts same le)

none_hit :
    {A : Type 0} (p q : A → Bool) (xs : List A) → count p xs ≡ 0 → any (λ x. p x && q x) xs ≡ false
unfolding count
none_hit p q [] h = refl
none_hit p q (x ∷ xs) h = ground (arith, none_hit p q xs)

-- When no row fits, the update raises the conflict.
pub consume_token-of_none :
    (i d g r : ℕ) (at : DateTime) (s : Store)
    → count (is_rotatable i d g at s) s.tokens ≡ 0
    → consume_token i d g r at s ≡ err refresh_rotation_conflict
unfolding consume_token update_tokens
consume_token-of_none i d g r at s none_fits = simp (
  none_fits,
  none_hit (is_rotatable i d g at s) (λ t. not (token_check (consumed r at t))) s.tokens none_fits,
)
