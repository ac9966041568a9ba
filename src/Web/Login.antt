-- ===== src/Web/Login.antt =====
-- internal/auth/web.go: Login and createWebSession. Audit events are left out.
use nexusdock.Shared.{
  ℕ, ◌+◌, ◌*◌, ltb, leb, String, str_eq, codes, trim_space, List, [], ◌∷◌, ◌++◌, map, Option, none,
  some, Bool, ◌&&◌, ◌||◌, any, find_first, if◌then◌else◌,
}
use nexusdock.Continuation.Types.{failed, invalid_token, rate_limited, Result, ok, err, second}
use nexusdock.Web.Passwords.{WebLibrary, same_codes, verify_password}
use nexusdock.Web.Throttle.{
  account, ip, ThrottleKey, LoginThrottle, throttle_remaining, record_login_failure,
  clear_login_failures,
}

-- A user with its credentials.
pub record WebUser : Type 0 where
  pub id : String
  pub username : String
  pub display_name : String
  pub is_active : Bool
  pub password_hash : String
  pub must_change_password : Bool

-- A row of user_sessions.
pub record WebSessionRow : Type 0 where
  pub id : String
  pub user_id : String
  pub token_hash : String
  pub csrf_salt : String
  pub remember_me : Bool
  pub ip_prefix : String
  pub user_agent : String
  pub created_at : ℕ
  pub last_seen_at : ℕ
  pub idle_expires_at : ℕ
  pub absolute_expires_at : ℕ
  pub revoked_at : Option ℕ

pub record WebTables : Type 0 where
  pub users : List WebUser
  pub sessions : List WebSessionRow
  pub throttles : List LoginThrottle

pub record LoginRequest : Type 0 where
  pub username : String
  pub password : String
  pub ip_prefix : String
  pub user_agent : String
  pub remember : Bool

pub record IssuedWebSession : Type 0 where
  pub session : WebSessionRow
  pub username : String
  pub display_name : String
  pub must_change_password : Bool
  pub csrf_token : String
  pub token : String

abbrev pub account_key : WebLibrary → LoginRequest → ThrottleKey
account_key p r = record {
  key_type = account;
  key_value = p.digest (p.to_lower (trim_space r.username));
}

abbrev pub ip_key : WebLibrary → LoginRequest → ThrottleKey
ip_key p r = record { key_type = ip; key_value = p.digest r.ip_prefix }

-- lower(s) in SQLite: only ASCII letters change.
abbrev sql_lower : String → List ℕ
sql_lower s = map (λ c. if leb b'A' c && leb c b'Z' then c + 32 else c) (codes s)

abbrev find_user : WebTables → String → Option WebUser
find_user db name = find_first (λ u. same_codes (sql_lower u.username) (sql_lower name)) db.users

-- The user whose credentials the request gives.
unfoldable pub valid_user : WebLibrary → WebTables → LoginRequest → Option WebUser
valid_user p db r = elim (find_user db (trim_space r.username)) [
  | none ↦ none
  | some u ↦ if u.is_active && verify_password p r.password u.password_hash then some u else none
]

abbrev hours : ℕ → ℕ
hours n = n * 3600 * second

abbrev idle_window : Bool → ℕ
idle_window remember = if remember then hours (7 * 24) else hours 12

abbrev absolute_window : Bool → ℕ
absolute_window remember = if remember then hours (30 * 24) else hours (7 * 24)

abbrev new_session :
    WebLibrary → ℕ → WebUser → LoginRequest → String → String → String → WebSessionRow
new_session p now u r raw salt id = record {
  id = id;
  user_id = u.id;
  token_hash = p.digest raw;
  csrf_salt = salt;
  remember_me = r.remember;
  ip_prefix = r.ip_prefix;
  user_agent = r.user_agent;
  created_at = now;
  last_seen_at = now;
  idle_expires_at = now + idle_window r.remember;
  absolute_expires_at = now + absolute_window r.remember;
  revoked_at = none;
}

-- createWebSession: the supplied texts are the token, the salt and the id.
unfoldable pub create_web_session :
    WebLibrary
    → List String
    → WebTables
    → ℕ
    → WebUser
    → LoginRequest
    → WebTables × Result IssuedWebSession
create_web_session p (raw ∷ salt ∷ id ∷ ids) db now u r =
    if any (λ s. str_eq s.id id || str_eq s.token_hash (p.digest raw)) db.sessions
    then (db, err failed)
    else (
      record db { sessions = db.sessions ++ new_session p now u r raw salt id ∷ [] },
      ok (record {
        session = new_session p now u r raw salt id;
        username = u.username;
        display_name = u.display_name;
        must_change_password = u.must_change_password;
        csrf_token = p.derive_csrf raw salt;
        token = raw;
      }),
    )
create_web_session p _ db now u r = (db, err failed)

-- The answer to wrong credentials.
abbrev login_refusal : ℕ → Result IssuedWebSession
login_refusal retry =
    if leb (60 * second) retry then err (rate_limited retry) else err invalid_token

unfoldable pub refuse_login :
    WebLibrary → WebTables → ℕ → LoginRequest → WebTables × Result IssuedWebSession
refuse_login p db now r =
    let (throttles, retry) = record_login_failure db.throttles now (account_key p r) (ip_key p r) in
    (record db { throttles = throttles }, login_refusal retry)

abbrev cleared : WebLibrary → WebTables → LoginRequest → WebTables
cleared p db r = record db {
  throttles = clear_login_failures db.throttles (account_key p r) (ip_key p r);
}

abbrev pub login_wait : WebLibrary → WebTables → ℕ → LoginRequest → ℕ
login_wait p db now r = throttle_remaining db.throttles now (account_key p r) (ip_key p r)

-- Login.
unfoldable pub login :
    WebLibrary → List String → WebTables → ℕ → LoginRequest → WebTables × Result IssuedWebSession
login p ids db now r =
    if ltb 0 (login_wait p db now r)
    then (db, err (rate_limited (login_wait p db now r)))
    else elim (valid_user p db r) [
      | none ↦ refuse_login p db now r
      | some u ↦ create_web_session p ids (cleared p db r) now u r
    ]
