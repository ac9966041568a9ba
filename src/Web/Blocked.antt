-- ===== src/Web/Blocked.antt =====
-- web.go: a login that failed blocks the next ones.
use nexusdock.Shared.{
  ℕ, suc, ◌+◌, ◌<◌, ◌≡◌, ◌⊎◌, refl, sym, ap, subst, ◌∙◌, lt→ltb, str_eq_refl, List, [], ◌∷◌, none,
  some, true, false, find_first, arith, Bool-cases, inl, inr, String,
}
use nexusdock.Continuation.Types.{rate_limited, err}
use nexusdock.Web.Passwords.{WebLibrary}
use nexusdock.Web.Throttle.{
  KeyType, account, ip, key_type_eq, ThrottleKey, LoginThrottle, has_key, login_delay, time_left,
  longer, throttle_remaining, failures_of, failed_row, put_throttle, record_failure,
  record_login_failure,
}
use nexusdock.Web.Login.{
  WebTables, LoginRequest, account_key, ip_key, valid_user, refuse_login, login_wait, login,
}

key_type_eq_refl : (t : KeyType) → key_type_eq t t ≡ true
key_type_eq_refl account = refl
key_type_eq_refl ip = refl

has_key_self : (t : LoginThrottle) → has_key t.key t ≡ true
has_key_self t = rw (key_type_eq_refl t.key.key_type) (str_eq_refl t.key.key_value)

find-put_throttle :
    (ts : List LoginThrottle) (t : LoginThrottle)
    → find_first (has_key t.key) (put_throttle ts t) ≡ some t
find-put_throttle [] t = rw (has_key_self t) refl
find-put_throttle (x ∷ ts) t = elim (Bool-cases (has_key t.key x)) [
  | inl e ↦ rw (e, has_key_self t) refl
  | inr e ↦ rw (e, e) (find-put_throttle ts t)
]

other_type :
    (x t k : KeyType) → key_type_eq x t ≡ true → key_type_eq t k ≡ false → key_type_eq x k ≡ false
other_type account account k h d = d
other_type ip ip k h d = d
other_type account ip k h d = cc
other_type ip account k h d = cc

-- Rows of another key stay.
find-put_other :
    (k : ThrottleKey) (ts : List LoginThrottle) (t : LoginThrottle)
    → key_type_eq t.key.key_type k.key_type ≡ false
    → find_first (has_key k) (put_throttle ts t) ≡ find_first (has_key k) ts
find-put_other k [] t d = rw d refl
find-put_other k (x ∷ ts) t d = elim (Bool-cases (has_key t.key x)) [
  | inl e ↦
      let h : key_type_eq x.key.key_type t.key.key_type ≡ true = ground (arith, e) in
      rw (e, d, other_type x.key.key_type t.key.key_type k.key_type h d) refl
  | inr e ↦ rw (e, find-put_other k ts t d) refl
]

longer_first : (a b : ℕ) → 0 < a → 0 < longer (longer 0 a) b
longer_first a b h = ground (arith, h)

longer_second : (a b : ℕ) → 0 < b → 0 < longer (longer 0 a) b
longer_second a b h = ground (arith, h)

-- The rows that the failures of an account and of an address leave.
account_row :
    (ts : List LoginThrottle) (now : ℕ) (a i : ThrottleKey)
    → key_type_eq i.key_type a.key_type ≡ false
    → find_first (has_key a) (record_failure (record_failure ts now a) now i)
      ≡ some (failed_row ts now a)
unfolding record_failure
account_row ts now a i d =
    find-put_other a (record_failure ts now a) (failed_row (record_failure ts now a) now i) d
    ∙ find-put_throttle ts (failed_row ts now a)

ip_row :
    (ts : List LoginThrottle) (now : ℕ) (a i : ThrottleKey)
    → key_type_eq a.key_type i.key_type ≡ false
    → find_first (has_key i) (record_failure (record_failure ts now a) now i)
      ≡ some (failed_row ts now i)
unfolding record_failure
ip_row ts now a i d =
    find-put_throttle (record_failure ts now a) (failed_row (record_failure ts now a) now i)
    ∙ ap
        (λ o.
          let n = suc (elim o [ none ↦ 0 | some t ↦ t.failures ]) in
          some (record {
            key = i;
            failures = n;
            blocked_until = some (now + login_delay n);
            last_failed_at = now;
          }))
        (find-put_other i ts (failed_row ts now a) d)

throttle_remaining-blocked :
    (ts : List LoginThrottle) (now later : ℕ) (a i b j : ThrottleKey)
    → key_type_eq a.key_type i.key_type ≡ false
    → key_type_eq i.key_type a.key_type ≡ false
    → ((b ≡ a) × (later < now + login_delay (suc (failures_of ts a))))
      ⊎ ((j ≡ i) × (later < now + login_delay (suc (failures_of ts i))))
    → 0 < throttle_remaining (record_login_failure ts now a i).0 later b j
unfolding throttle_remaining record_login_failure
throttle_remaining-blocked ts now later a i b j d d' (inl (e, l)) =
    let row = account_row ts now a i d' in
    let left : 0 < time_left later (find_first (has_key b) (record_login_failure ts now a i).0) =
      rw (e, row) (omega (arith, l)) in
    longer_first _ (time_left later (find_first (has_key j) (record_login_failure ts now a i).0))
      left
throttle_remaining-blocked ts now later a i b j d d' (inr (e, l)) =
    let row = ip_row ts now a i d in
    let left : 0 < time_left later (find_first (has_key j) (record_login_failure ts now a i).0) =
      rw (e, row) (omega (arith, l)) in
    longer_second (time_left later (find_first (has_key b) (record_login_failure ts now a i).0)) _
      left

-- A login that has to wait is told so, and changes nothing.
login-waits :
    (p : WebLibrary) (ids : List String) (db : WebTables) (now : ℕ) (r : LoginRequest)
    → 0 < login_wait p db now r
    → login p ids db now r ≡ (db, err (rate_limited (login_wait p db now r)))
unfolding login
login-waits p ids db now r h = rw (lt→ltb 0 (login_wait p db now r) h) refl

failed_login :
    (p : WebLibrary) (ids : List String) (db : WebTables) (now : ℕ) (q : LoginRequest)
    → login_wait p db now q ≡ 0
    → valid_user p db q ≡ none
    → (login p ids db now q).0 ≡ record db {
      throttles = (record_login_failure db.throttles now (account_key p q) (ip_key p q)).0;
    }
unfolding login refuse_login
failed_login p ids db now q w v = rw (w, v) refl

-- When a login with wrong credentials comes while no block lasts, then every login for the same
-- account or from the same address, whatever its password is, is refused until the delay of the
-- failures counted so far has passed, is told to wait, and changes nothing.
pub failed_login-blocks :
    (p : WebLibrary) (ids ids' : List String) (db : WebTables) (now later : ℕ) (q r : LoginRequest)
    → login_wait p db now q ≡ 0
    → valid_user p db q ≡ none
    → ((account_key p r ≡ account_key p q)
        × (later < now + login_delay (suc (failures_of db.throttles (account_key p q)))))
      ⊎ ((ip_key p r ≡ ip_key p q)
          × (later < now + login_delay (suc (failures_of db.throttles (ip_key p q)))))
    → (wait : ℕ) × (0 < wait)
      × (login p ids' (login p ids db now q).0 later r
          ≡ ((login p ids db now q).0, err (rate_limited wait)))
failed_login-blocks p ids ids' db now later q r w v k =
    let blocked =
      throttle_remaining-blocked db.throttles now later (account_key p q) (ip_key p q)
        (account_key p r) (ip_key p r) refl refl k in
    let waits : 0 < login_wait p (login p ids db now q).0 later r =
      subst (λ z. 0 < login_wait p z later r) (sym (failed_login p ids db now q w v)) blocked in
    (
      login_wait p (login p ids db now q).0 later r,
      waits,
      login-waits p ids' (login p ids db now q).0 later r waits,
    )
