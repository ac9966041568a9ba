-- ===== src/Web/Examples.antt =====
-- The web login on concrete inputs: a login, and a failure that blocks the next one.
use nexusdock.Shared.{
  ℕ, ◌*◌, ◌<◌, ◌≡◌, refl, trim_space, is_space, text_append, [], ◌∷◌, some, Bool, true, false,
  arith, inr, ◌+◌,
}
use nexusdock.Continuation.Types.{rate_limited, invalid_token, Result, ok, err, second}
use nexusdock.Web.Passwords.{WebLibrary, verify_password}
use nexusdock.Web.Throttle.{
  login_delay, throttle_remaining, record_failure, record_login_failure, clear_login_failures,
}
use nexusdock.Web.Login.{
  WebUser, WebTables, LoginRequest, IssuedWebSession, valid_user, create_web_session, refuse_login,
  login,
}
use nexusdock.Web.Blocked.{failed_login-blocks}

-- A library for the examples, whose key is the salt.
abbrev library : WebLibrary
library = record {
  digest = λ s. text_append "h:" s;
  to_lower = λ s. s;
  scan_costs = λ s. some (65536, 3, 2);
  decode_base64 = λ s. some s;
  id_key = λ secret salt i m n l. salt;
  derive_csrf = λ raw salt. text_append raw salt;
}

abbrev admin : WebUser
admin = record {
  id = "u1";
  username = "Admin";
  display_name = "Administrator";
  is_active = true;
  password_hash = "$argon2id$v=19$m=65536,t=3,p=2$aaaaaaaaaaaaaaaa$aaaaaaaaaaaaaaaa";
  must_change_password = false;
}

abbrev fresh : WebTables
fresh = record { users = admin ∷ []; sessions = []; throttles = [] }

abbrev attempt : LoginRequest
attempt = record {
  username = " admin ";
  password = "correct horse";
  ip_prefix = "10.0.0.0/24";
  user_agent = "browser";
  remember = false;
}

abbrev stranger : LoginRequest
stranger = record attempt { username = "root" }

logs_in : Result IssuedWebSession → Bool
unfolding trim_space is_space verify_password login_delay throttle_remaining record_failure
    record_login_failure clear_login_failures valid_user create_web_session refuse_login login
logs_in (ok s) = true
logs_in (err e) = false

run_logs_in : logs_in (login library ("t" ∷ "s" ∷ "i" ∷ []) fresh second attempt).1 ≡ true
unfolding logs_in
run_logs_in = refl

run_fails : (login library [] fresh second stranger).1 ≡ err invalid_token
unfolding logs_in
run_fails = refl

-- After five failures the delay is a minute.
run_delays : login_delay 5 ≡ 60 * second
unfolding logs_in
run_delays = refl

failed_login-blocks_example :
    (wait : ℕ) × (0 < wait)
    × (login library
          ("t" ∷ "s" ∷ "i" ∷ [])
          (login library [] fresh second stranger).0
          (second + 1)
          attempt
        ≡ ((login library [] fresh second stranger).0, err (rate_limited wait)))
unfolding logs_in
failed_login-blocks_example =
    failed_login-blocks library [] ("t" ∷ "s" ∷ "i" ∷ []) fresh second (second + 1) stranger attempt
      refl refl (inr (refl, omega arith))
