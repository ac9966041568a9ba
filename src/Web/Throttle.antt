-- ===== src/Web/Throttle.antt =====
-- internal/auth/web.go: the throttling of logins by account and by address. One call reads the
-- clock once.
use nexusdock.Shared.{
  ℕ, suc, ◌+◌, ◌-◌, ◌*◌, ltb, leb, String, str_eq, List, [], ◌∷◌, Option, none, some, Bool, true,
  false, ◌&&◌, ◌||◌, not, filter, find_first, if◌then◌else◌,
}
use Prim.Native.Nat.{◌^◌}
use nexusdock.Continuation.Types.{second}

pub data KeyType : Type 0 where
  account ip : KeyType

abbrev pub key_type_eq : KeyType → KeyType → Bool
key_type_eq account account = true
key_type_eq ip ip = true
key_type_eq _ _ = false

-- The key of a row of login_throttles.
pub record ThrottleKey : Type 0 where
  pub key_type : KeyType
  pub key_value : String

-- A row of login_throttles.
pub record LoginThrottle : Type 0 where
  pub key : ThrottleKey
  pub failures : ℕ
  pub blocked_until : Option ℕ
  pub last_failed_at : ℕ

abbrev pub has_key : ThrottleKey → LoginThrottle → Bool
has_key k t = key_type_eq t.key.key_type k.key_type && str_eq t.key.key_value k.key_value

abbrev pub milliseconds : ℕ → ℕ
milliseconds n = n * 1000000

-- loginDelay.
unfoldable pub login_delay : ℕ → ℕ
login_delay failures =
    if leb 10 failures
    then 900 * second
    else if leb 7 failures
    then 300 * second
    else if leb 6 failures
    then 120 * second
    else if leb 5 failures
    then 60 * second
    else milliseconds (250 * 2 ^ (failures - 1))

-- What is left of the block of a row.
abbrev pub time_left : ℕ → Option LoginThrottle → ℕ
time_left now none = 0
time_left now (some t) = elim t.blocked_until [ none ↦ 0 | some until ↦ until - now ]

abbrev pub longer : ℕ → ℕ → ℕ
longer longest n = if ltb longest n then n else longest

-- throttleRemaining of the keys of an account and of an address.
unfoldable pub throttle_remaining : List LoginThrottle → ℕ → ThrottleKey → ThrottleKey → ℕ
throttle_remaining ts now a i =
    longer (longer 0 (time_left now (find_first (has_key a) ts)))
      (time_left now (find_first (has_key i) ts))

-- The failures of a key, none when it has no row.
abbrev pub failures_of : List LoginThrottle → ThrottleKey → ℕ
failures_of ts k = elim (find_first (has_key k) ts) [ none ↦ 0 | some t ↦ t.failures ]

-- INSERT … ON CONFLICT DO UPDATE
abbrev pub put_throttle : List LoginThrottle → LoginThrottle → List LoginThrottle
put_throttle [] t = t ∷ []
put_throttle (x ∷ ts) t =
    let rest = put_throttle ts t in if has_key t.key x then t ∷ ts else x ∷ rest

-- The row of a key after one more failure.
abbrev pub failed_row : List LoginThrottle → ℕ → ThrottleKey → LoginThrottle
failed_row ts now k = record {
  key = k;
  failures = suc (failures_of ts k);
  blocked_until = some (now + login_delay (suc (failures_of ts k)));
  last_failed_at = now;
}

-- One round of recordLoginFailure.
unfoldable pub record_failure : List LoginThrottle → ℕ → ThrottleKey → List LoginThrottle
record_failure ts now k = put_throttle ts (failed_row ts now k)

-- recordLoginFailure: the table and the longer delay.
unfoldable pub record_login_failure :
    List LoginThrottle → ℕ → ThrottleKey → ThrottleKey → List LoginThrottle × ℕ
record_login_failure ts now a i =
    let ts' = record_failure ts now a in
    (
      record_failure ts' now i,
      longer (longer 0 (login_delay (suc (failures_of ts a))))
          (login_delay (suc (failures_of ts' i))),
    )

-- clearLoginFailures.
unfoldable pub clear_login_failures :
    List LoginThrottle → ThrottleKey → ThrottleKey → List LoginThrottle
clear_login_failures ts a i = filter (λ t. not (has_key a t || has_key i t)) ts
