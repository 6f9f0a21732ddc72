-- ===== src/Auth/Guard.antt =====
-- auth.go. Times are nanoseconds since the zero time.Time, which is 0, and the mutex is not modelled:
-- each method runs alone. A method that reads the clock takes the time that it reads.
use bundle_broadcaster.Common.{
  none, some, [], true, false, Option, String, ℕ, Bool, List, add_duration, if◌then◌else◌, insert,
  remove, ℤ, encode_hex, is_positive, leb, lookup, ltb, not, word, ◌+◌, ◌==◌, to_ℕ, ◌*◌,
}

-- `time.Hour`, in nanoseconds, times 24.
abbrev pub session_lifetime : ℕ
session_lifetime = 86400000000000

pub record AttemptRecord : Type 0 where
  pub count : ℕ
  pub locked_until : ℕ

pub record AuthGuard : Type 0 where
  pub password_hash : String
  pub max_attempts : ℕ
  pub lockout_minutes : ℕ
  pub sessions : List (String × ℕ)
  pub attempts : List (String × AttemptRecord)

-- The defaults make both numbers positive.
unfoldable pub new_auth_guard : String → ℤ → ℤ → AuthGuard
new_auth_guard password_hash max_attempts lockout_minutes = record {
  password_hash = password_hash;
  max_attempts = if is_positive max_attempts then to_ℕ max_attempts else 5;
  lockout_minutes = if is_positive lockout_minutes then to_ℕ lockout_minutes else 15;
  sessions = [];
  attempts = [];
}

-- `md5_hex` is the function md5Hex, over crypto/md5.
unfoldable pub verify_password : (String → String) → AuthGuard → String → Bool
verify_password md5_hex a password = md5_hex password == a.password_hash

unfoldable pub is_locked : AuthGuard → String → ℕ → Bool
is_locked a ip now = elim (lookup ip a.attempts) [
  | none ↦ false
  | some rec ↦ ltb now rec.locked_until
]

abbrev pub or_fresh : Option AttemptRecord → AttemptRecord
or_fresh none = record { count = 0; locked_until = 0 }
or_fresh (some rec) = rec

-- `time.Now().After(rec.lockedUntil)` resets the record.
unfoldable pub reset_if_past : AttemptRecord → ℕ → AttemptRecord
reset_if_past rec now =
    if ltb rec.locked_until now then record { count = 0; locked_until = 0 } else rec

-- `time.Now().Add(time.Duration(a.lockoutMinutes) * time.Minute)`
unfoldable pub lock_end : AuthGuard → ℕ → ℕ
lock_end a now = add_duration now (word (a.lockout_minutes * 60000000000))

-- The clock is read for the reset, and then for the end of the lock.
unfoldable pub count_attempt : AuthGuard → AttemptRecord → ℕ → AttemptRecord
unfolding lock_end
count_attempt a rec now =
    if leb a.max_attempts (rec.count + 1)
    then record { count = rec.count + 1; locked_until = lock_end a now }
    else record rec { count = rec.count + 1 }

unfoldable pub record_failed_attempt : AuthGuard → String → ℕ → ℕ → AuthGuard
unfolding reset_if_past count_attempt
record_failed_attempt a ip reset_at lock_at = record a {
  attempts =
      insert ip (count_attempt a (reset_if_past (or_fresh (lookup ip a.attempts)) reset_at) lock_at)
        a.attempts;
}

unfoldable pub clear_attempts : AuthGuard → String → AuthGuard
clear_attempts a ip = record a { attempts = remove ip a.attempts }

-- `random` is what rand.Read gives: 32 bytes, or `none` for an error. The result is the session and
-- whether there was an error.
unfoldable pub create_session : Option (List ℕ) → String × Bool
create_session none = ("", true)
create_session (some bytes) = (encode_hex bytes, false)

unfoldable pub set_session : AuthGuard → String → ℕ → AuthGuard
set_session a session_id now = record a {
  sessions = insert session_id (now + session_lifetime) a.sessions;
}

-- An expired session is forgotten.
unfoldable pub is_valid_session : AuthGuard → String → ℕ → Bool × AuthGuard
is_valid_session a session_id now = elim (lookup session_id a.sessions) [
  | none ↦ (false, a)
  | some expiry ↦
      if ltb expiry now
      then (false, record a { sessions = remove session_id a.sessions })
      else (true, a)
]

pub record Request : Type 0 where
  pub method : String
  pub path : String
  pub forwarded_for : String
  pub remote_addr : String
  pub cookie : Option String
  pub password : String

unfoldable pub client_ip : Request → String
client_ip r = if not (r.forwarded_for == "") then r.forwarded_for else r.remote_addr
