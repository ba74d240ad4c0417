-- ===== src/RateLimit/Attempts.antt =====
-- What a reservation counts, when it is refused, and what a release gives back.
use text.Mathlib.Text.{◌==◌ as str_eq}
use assignment_cloud_instanc.Prelude.{
  ℕ, zero, suc, ◌≤◌, ◌<◌, ◌+◌, ◌≡◌, refl, ap, ◌∙◌, Bool, true, false, ◌||◌, none, some, String,
  arith, leb, Bool-cases, inl, inr,
}
use assignment_cloud_instanc.Prelude.Ints.{ℤ, pos, negsuc, ◌+ℤ◌, exceeds}
use assignment_cloud_instanc.Config.{Settings}
use assignment_cloud_instanc.Session.{Result, ok, err}
use assignment_cloud_instanc.Store.{Store, number, seconds, add, delete, counter_of, retry_after}
use assignment_cloud_instanc.Store.Keys.{prefixes_differ, str_eq_self}
use assignment_cloud_instanc.Store.Live.{IsMap, held, unexpired, str_eq_sym}
use assignment_cloud_instanc.Store.Timed.{add_counts, delete_erases}
use assignment_cloud_instanc.RateLimit.{
  account_key, ip_key, verdict, reserve_login_attempt, release_login_attempt,
}

abbrev pub refused : Result (Unit {0}) → Bool
refused (ok a) = false
refused (err e) = true

refused-verdict :
    (settings : Settings) (c d : ℤ × ℕ)
    → refused (verdict settings c d) ≡ (
        exceeds c.0 settings.login_max_failures_per_account
        || exceeds d.0 settings.login_max_failures_per_ip)
refused-verdict settings c d =
    elim (Bool-cases (exceeds c.0 settings.login_max_failures_per_account)) [
      | inl over ↦ rw over refl
      | inr under ↦ elim (Bool-cases (exceeds d.0 settings.login_max_failures_per_ip)) [
        | inl over ↦ rw (under, over) refl
        | inr below ↦ rw (under, below) refl
      ]
    ]

reached :
    (a b n : ℕ) → (exceeds (pos n +ℤ pos 1) a || exceeds (pos n +ℤ pos 1) b) ≡ (leb a n || leb b n)
reached a b n = ground arith

module _ (strip_lower : String → String) (settings : Settings) (email client_ip : String) where
  abbrev window : ℕ
  window = settings.login_window_seconds

  abbrev pub account : String
  account = account_key strip_lower email

  abbrev pub ip : String
  ip = ip_key client_ip

  account-ne-ip : str_eq account ip ≡ false
  account-ne-ip = prefixes_differ "login:account:" "login:ip:" (strip_lower email) client_ip refl

  ip-ne-account : str_eq ip account ≡ false
  ip-ne-account = str_eq_sym account ip account-ne-ip

  -- The counters that a reservation leaves.
  pub record Counted (t : ℕ) (c d : ℤ × ℕ) (st : Store) : Type 0 where
    pub account_held :
        held account t st
        ≡ unexpired t (some (record { key = account; value = number c.0; expires = c.1 }))
    pub ip_held :
        held ip t st ≡ unexpired t (some (record { key = ip; value = number d.0; expires = d.1 }))
    pub is_map : IsMap st.entries

  module _ (now now' t : ℕ) (h : now ≤ now') (h' : now' ≤ t) (st : Store)
      (m : IsMap st.entries) where
    -- On a store with every key once, at readings of the clock that do not go back, when both
    -- entries are counters or absent, a reservation answers by the two counters raised by one,
    -- and from then on leaves both raised by one, whether it is refused or not, until the
    -- expiry of their windows, which stays.
    pub reserve_counts :
        {c d : ℤ × ℕ}
        → counter_of now window (held account now st) ≡ some c
        → counter_of now' window (held ip now' st) ≡ some d
        → let out = reserve_login_attempt strip_lower settings email client_ip now now' st in
          (out.0
            ≡ verdict settings
                (c.0 +ℤ pos 1, retry_after c.1 now)
                (d.0 +ℤ pos 1, retry_after d.1 now'))
          × Counted t (c.0 +ℤ pos 1, c.1) (d.0 +ℤ pos 1, d.1) out.1
    unfolding reserve_login_attempt
    reserve_counts {c} {d} e f =
        let st1 : Store = (add account (pos 1) window now st).1 in
        let first = add_counts account ip now now' h st m (pos 1) window e in
        let later = add_counts account account now t (omega arith) st m (pos 1) window e in
        let same : held ip now' st1 ≡ held ip now' st = first.1 ∙ rw account-ne-ip refl in
        let found : counter_of now' window (held ip now' st1) ≡ some d =
          ap (counter_of now' window) same ∙ f in
        let second = add_counts ip account now' t h' st1 first.2 (pos 1) window found in
        let third = add_counts ip ip now' t h' st1 first.2 (pos 1) window found in
        rw first.0 (
          rw second.0 (
            refl,
            record {
              account_held = rw ip-ne-account at second.1 ∙ rw str_eq_self at later.1;
              ip_held = rw str_eq_self at third.1;
              is_map = second.2;
            },
          ))

  -- On a store with every key once, when the address has a counter or no entry, a release
  -- succeeds, leaves no counter for the account, and takes one from the counter of the address,
  -- whose window stays.
  pub release_counts :
      (now t : ℕ) (st : Store) {d : ℤ × ℕ}
      → now ≤ t
      → IsMap st.entries
      → counter_of now window (held ip now st) ≡ some d
      → let out = release_login_attempt strip_lower settings email client_ip now st in
        (out.0 ≡ ok tt)
        × (held account t out.1 ≡ none)
        × (held ip t out.1
            ≡ unexpired t
                (some (record { key = ip; value = number (d.0 +ℤ negsuc 0); expires = d.1 })))
        × IsMap out.1.entries
  unfolding release_login_attempt
  release_counts now t st {d} h m e =
      let cleared : Store = delete account st in
      let gone = delete_erases account account t st m in
      let same : held ip now cleared ≡ held ip now st =
        (delete_erases account ip now st m).0 ∙ rw account-ne-ip refl in
      let found : counter_of now window (held ip now cleared) ≡ some d =
        ap (counter_of now window) same ∙ e in
      let other = add_counts ip account now t h cleared gone.1 (negsuc 0) window found in
      let own = add_counts ip ip now t h cleared gone.1 (negsuc 0) window found in
      rw own.0 (
        refl,
        rw ip-ne-account at other.1 ∙ gone.0 ∙ rw str_eq_self refl,
        rw str_eq_self at own.1,
        own.2,
      )

  -- The state before the attempt `n` of a run of attempts, at the times of a clock.
  abbrev pub after : (ℕ → ℕ) → Store → ℕ → Store
  after clock st zero = st
  after clock st (suc n) =
      (reserve_login_attempt strip_lower settings email client_ip (clock n) (clock n)
        (after clock st n)).1

  module _ (clock : ℕ → ℕ) (st : Store) (m : IsMap st.entries)
      (forward : (i : ℕ) → clock i ≤ clock (suc i)) (no_account : held account (clock 0) st ≡ none)
      (no_ip : held ip (clock 0) st ≡ none) where
    abbrev ends : ℕ
    ends = clock 0 + seconds window

    record Running (n : ℕ) : Type 0 where
      pub account_count :
          counter_of (clock n) window (held account (clock n) (after clock st n))
          ≡ some (pos n, ends)
      pub ip_count :
          counter_of (clock n) window (held ip (clock n) (after clock st n)) ≡ some (pos n, ends)
      pub is_map : IsMap (after clock st n).entries

    counter_unexpired :
        (k : String) (n t : ℕ)
        → t < ends
        → counter_of t window (
            unexpired t
              (some (record { key = k; value = number (pos n +ℤ pos 1); expires = ends })))
          ≡ some (pos (suc n), ends)
    counter_unexpired k n t h =
        let late : leb ends t ≡ false = ground arith in
        let more : n + 1 ≡ suc n = omega arith in rw late (ap (λ j. some (pos j, ends)) more)

    running : (n : ℕ) → clock n < ends → Running n
    running zero h = record {
      account_count = rw no_account refl;
      ip_count = rw no_ip refl;
      is_map = m;
    }
    running (suc n) h =
        let before : Running n = running n (omega (arith, forward n)) in
        let counted =
          (reserve_counts (clock n) (clock n) (clock (suc n)) (omega arith) (forward n)
            (after clock st n) before.is_map before.account_count before.ip_count).1 in
        record {
          account_count =
              ap (counter_of (clock (suc n)) window) counted.account_held
              ∙ counter_unexpired account n (clock (suc n)) h;
          ip_count =
              ap (counter_of (clock (suc n)) window) counted.ip_held
              ∙ counter_unexpired ip n (clock (suc n)) h;
          is_map = counted.is_map;
        }

    -- In a run of login attempts for one account from one address, each at one time and the
    -- times not going back, from a store with every key once that holds neither counter at the
    -- start: the attempt after `n` others, if it falls in the window that the first opened, is
    -- refused exactly if `n` has reached the limit of the account or that of the address.
    pub attempts_limit :
        (n : ℕ)
        → clock n < clock 0 + seconds settings.login_window_seconds
        → refused
            (reserve_login_attempt strip_lower settings email client_ip
              (clock n)
              (clock n)
              (after clock st n)).0
          ≡ (leb settings.login_max_failures_per_account n
              || leb settings.login_max_failures_per_ip n)
    attempts_limit n h =
        let before : Running n = running n h in
        let out =
          (reserve_counts (clock n) (clock n) (clock (suc n)) (omega arith) (forward n)
            (after clock st n) before.is_map before.account_count before.ip_count).0 in
        ap refused out
        ∙ refused-verdict settings (pos n +ℤ pos 1, retry_after ends (clock n))
            (pos n +ℤ pos 1, retry_after ends (clock n))
        ∙ reached settings.login_max_failures_per_account settings.login_max_failures_per_ip n
