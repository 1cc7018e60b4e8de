-- ===== src/Examples/LoginData.antt =====
-- A session with one refresh token, fresh or used, and what the calls on it draw.
use workflow_forge.Sessions.Token.{RefreshToken}
use workflow_forge.Sessions.Lifecycle.{Draw, Ports}
use workflow_forge.Sessions.Store.{Store}
use workflow_forge.Sessions.Session.{AuthSession}
use workflow_forge.Sessions.Claims.{TokenPair}
use workflow_forge.Time.{utc, naive}
use workflow_forge.Base.{◌∷◌, length, some, [], ◌+◌, none, true}

abbrev pub ports : Ports
ports = record {
  policy = record {
    access_token_lifetime = 10;
    refresh_token_lifetime = 100;
    session_lifetime = 1000;
  };
  digest_token = length;
  issue_token = λ c. c.token_id ∷ [];
  audited = true;
}

abbrev pub refresh_draw : Draw
refresh_draw = record { now = utc 150; uuid = λ k. k + 20; token = 1 ∷ 2 ∷ [] }

abbrev pub replay_draw : Draw
replay_draw = record { now = utc 160; uuid = λ k. k + 40; token = 1 ∷ 2 ∷ 3 ∷ [] }

abbrev pub naive_draw : Draw
naive_draw = record refresh_draw { now = naive 150 }

abbrev pub session : AuthSession
session = record {
  id = 5;
  user_id = 1;
  created_at = utc 100;
  updated_at = utc 100;
  expires_at = utc 1100;
  revoked_at = none;
}

abbrev pub token : RefreshToken
token = record {
  id = 6;
  session_id = 5;
  token_family_id = 7;
  token_digest = 1;
  generation = 0;
  issued_at = utc 100;
  expires_at = utc 200;
  used_at = none;
  revoked_at = none;
  replaced_by_token_id = none;
}

abbrev pub used_token : RefreshToken
used_token = record token { used_at = some (utc 120); replaced_by_token_id = some 8 }

abbrev pub store : Store
store = record { users = 1 ∷ []; sessions = session ∷ []; tokens = token ∷ []; events = [] }

abbrev pub used_store : Store
used_store = record store { tokens = used_token ∷ [] }

abbrev pub refreshed : TokenPair
refreshed = record {
  access_token = 21 ∷ [];
  refresh_token = 1 ∷ 2 ∷ [];
  session_id = 5;
  access_token_expires_at = utc 160;
  refresh_token_expires_at = utc 250;
}
