-- ===== src/Examples/Accounts.antt =====
-- A user, an organization and a session, turned off and on, and their tokens.
use workflow_forge.Identity.User
use workflow_forge.Identity.Organization
use workflow_forge.Sessions.Session
use workflow_forge.Sessions.Token
use workflow_forge.Time.{utc, normalize, normalize_optional}
use workflow_forge.Identity.Organization.{Organization}
use workflow_forge.Identity.User.{User}
use workflow_forge.Sessions.Token.{RefreshToken}
use workflow_forge.Text.{Text, squeeze, join, split, split_from, strip, rstrip, lstrip, is_space}
use workflow_forge.Identity.Validation.{
  normalize_display_name, validate_uuid, normalize_organization_name,
}
use workflow_forge.Identity.User.Laws.{user-post_init-WellFormed, disable-reactivate}
use workflow_forge.Sessions.Session.{AuthSession}
use workflow_forge.Base.{◌≡◌, none, ℕ, some, ok, ◌∷◌, ◌>>=◌, true, [], ◌≤◌, refl, arith}

-- `ana`
abbrev name : Text
name = 97 ∷ 110 ∷ 97 ∷ []

abbrev user : User
user = record {
  id = 1;
  email = record { display = name; normalized = name };
  display_name = name;
  is_active = true;
  created_at = utc 100;
  updated_at = utc 100;
  disabled_at = none;
}

abbrev organization : Organization
organization = record {
  id = 7;
  name = name;
  slug = name;
  is_active = true;
  created_at = utc 100;
  updated_at = utc 100;
  deactivated_at = none;
}

user_built : User.post_init user ≡ ok user
unfolding User.post_init validate_uuid normalize_display_name squeeze join split split_from strip
    rstrip lstrip is_space normalize normalize_optional
user_built = refl

organization_built : Organization.post_init organization ≡ ok organization
unfolding Organization.post_init validate_uuid normalize_organization_name squeeze join split
    split_from strip rstrip lstrip is_space normalize normalize_optional
organization_built = refl

user_at : (t : ℕ) → 100 ≤ t → User.mutation_timestamp user (utc t) ≡ ok (utc t)
unfolding User.mutation_timestamp normalize
user_at t h = ground arith

organization_at :
    (t : ℕ) → 100 ≤ t → Organization.mutation_timestamp organization (utc t) ≡ ok (utc t)
unfolding Organization.mutation_timestamp normalize
organization_at t h = ground arith

disable-reactivate_example :
    (User.disable user (utc 150) >>= λ y. User.reactivate y (utc 160))
    ≡ ok (record user { updated_at = utc 160 })
disable-reactivate_example =
    disable-reactivate user (utc 150) (utc 160) (user-post_init-WellFormed user user user_built)
      refl (user_at 150 (omega arith)) (user_at 160 (omega arith))

abbrev session : AuthSession
session = record {
  id = 5;
  user_id = 1;
  created_at = utc 100;
  updated_at = utc 100;
  expires_at = utc 1100;
  revoked_at = none;
}

session_built : Session.post_init session ≡ ok session
unfolding Session.post_init validate_uuid normalize normalize_optional
session_built = refl

abbrev token : RefreshToken
token = record {
  id = 6;
  session_id = 5;
  token_family_id = 7;
  token_digest = 1;
  generation = 0;
  issued_at = utc 100;
  expires_at = utc 200;
  used_at = none;
  revoked_at = none;
  replaced_by_token_id = none;
}

token_built : Token.post_init token ≡ ok token
unfolding Token.post_init normalize normalize_optional
token_built = refl

abbrev used_token : RefreshToken
used_token = record token { used_at = some (utc 120); replaced_by_token_id = some 8 }

token_consumed : Token.consume token 8 (utc 120) ≡ ok used_token
unfolding Token.consume normalize Token.post_init normalize_optional
token_consumed = refl

name_normalized : normalize_display_name (32 ∷ name) ≡ ok name
unfolding normalize_display_name squeeze join split split_from strip rstrip lstrip is_space
name_normalized = refl
