-- ===== src/RateLimit.antt =====
-- app/core/rate_limit.py: failed logins, counted per account and per client address.
pub mod Attempts
pub mod Threads
use Prim.Native.String.{◌++◌}
use assignment_cloud_instanc.Prelude.{ℕ, Bool, Option, none, some, String, leb, if◌then◌else◌}
use assignment_cloud_instanc.Prelude.Ints.{ℤ, pos, negsuc, exceeds}
use assignment_cloud_instanc.Config.{Settings}
use assignment_cloud_instanc.Session.{Failure, http, Result, ok, err}
use assignment_cloud_instanc.Store.{Store, add, delete}

-- A ValueError that nothing catches.
abbrev pub internal_error : Failure
internal_error = http 500 "Internal Server Error" none

abbrev pub too_many : ℕ → Failure
too_many retry = http 429 "Too many failed login attempts. Try again later." (some retry)

-- `max(blocked)` over the limits that are exceeded, if any is
abbrev pub verdict : Settings → ℤ × ℕ → ℤ × ℕ → Result (Unit {0})
verdict settings account ip =
    let account_over = exceeds account.0 settings.login_max_failures_per_account in
    let ip_over = exceeds ip.0 settings.login_max_failures_per_ip in
    if account_over
    then err
        (too_many (if ip_over then (if leb account.1 ip.1 then ip.1 else account.1) else account.1))
    else if ip_over
    then err (too_many ip.1)
    else ok tt

-- The end of `reserve_login_attempt`, on the two answers of `add`.
abbrev pub answer : Settings → Option (ℤ × ℕ) → Option (ℤ × ℕ) → Result (Unit {0})
answer settings none counted = err internal_error
answer settings (some account) none = err internal_error
answer settings (some account) (some ip) = verdict settings account ip

abbrev pub released : Option (ℤ × ℕ) → Result (Unit {0})
released none = err internal_error
released (some ip) = ok tt

-- `_keys`; `strip_lower` is `str.strip` and then `str.lower`.
abbrev pub account_key : (String → String) → String → String
account_key strip_lower email = "login:account:" ++ strip_lower email

abbrev pub ip_key : String → String
ip_key client_ip = "login:ip:" ++ client_ip

module _ (strip_lower : String → String) (settings : Settings) (email client_ip : String) where
  -- The address is counted unless counting the account failed.
  abbrev pub count_ip : Option (ℤ × ℕ) → ℕ → Store → Option (ℤ × ℕ) × Store
  count_ip none now st = (none, st)
  count_ip (some account) now st =
      add (ip_key client_ip) (pos 1) settings.login_window_seconds now st

  -- The clock is read at `now` for the account and at `now'` for the address.
  unfoldable pub reserve_login_attempt : ℕ → ℕ → Store → Result (Unit {0}) × Store
  reserve_login_attempt now now' st =
      let (account, st') =
        add (account_key strip_lower email) (pos 1) settings.login_window_seconds now st in
      let (ip, st'') = count_ip account now' st' in (answer settings account ip, st'')

  unfoldable pub release_login_attempt : ℕ → Store → Result (Unit {0}) × Store
  release_login_attempt now st =
      let (counted, st') =
        add (ip_key client_ip) (negsuc 0) settings.login_window_seconds now
          (delete (account_key strip_lower email) st) in
      (released counted, st')
