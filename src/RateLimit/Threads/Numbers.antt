-- ===== src/RateLimit/Threads/Numbers.antt =====
-- The places of log ins that run at the same time (app/core/rate_limit.py): the number that the counter of
-- the account gave a request.
use assignment_cloud_instanc.Prelude.{
  ℕ, ◌≤◌, ◌≡◌, refl, Bool, true, false, Option, none, some, arith, Bool-cases, inl, inr,
}
use assignment_cloud_instanc.Prelude.Ints.{ℤ, pos, negsuc, exceeds}
use assignment_cloud_instanc.Config.{Settings}
use assignment_cloud_instanc.Session.{Result, ok, err}
use assignment_cloud_instanc.RateLimit.{answer}
use assignment_cloud_instanc.RateLimit.Threads.{
  Place, counted, checking, failed, clearing, returning, after_answer,
}

-- The number that the counter of the account gave a request.
abbrev pub count_of : Option (ℤ × ℕ) → ℕ
count_of none = 0
count_of (some (pos n, retry)) = n
count_of (some (negsuc n, retry)) = 0

abbrev pub number_of : Place → ℕ
number_of (counted c) = count_of c
number_of (checking c) = count_of c
number_of (failed c) = count_of c
number_of _ = 0

-- The password was, or is about to be, checked.
abbrev pub is_checked : Place → Bool
is_checked (checking c) = true
is_checked (failed c) = true
is_checked _ = false

abbrev pub holds_number : Place → Bool
holds_number (counted c) = true
holds_number (checking c) = true
holds_number (failed c) = true
holds_number _ = false

-- The password was right.
abbrev pub succeeded : Place → Bool
succeeded clearing = true
succeeded returning = true
succeeded _ = false

-- A verdict that lets a request through says that its number is within the limit of the account.
pub within_limit :
    (settings : Settings) (c ip : Option (ℤ × ℕ)) {u : Unit {0}}
    → answer settings c ip ≡ ok u
    → count_of c ≤ settings.login_max_failures_per_account
within_limit settings none ip h = absurd (ground arith)
within_limit settings (some (pos n, retry)) none h = absurd (ground arith)
within_limit settings (some (negsuc n, retry)) ip h = omega arith
within_limit settings (some (pos n, retry)) (some d) h =
    elim (Bool-cases (exceeds (pos n) settings.login_max_failures_per_account)) [
      | inl over ↦ absurd (ground (arith, h, over))
      | inr under ↦ ground (arith, under)
    ]

-- A request that was counted keeps its number, and is let through within the limit.
pub number_of-after_answer :
    (c : Option (ℤ × ℕ)) (r : Result (Unit {0}))
    → holds_number (after_answer c r) ≡ true
    → number_of (after_answer c r) ≡ count_of c
number_of-after_answer c (ok u) h = refl
number_of-after_answer c (err e) h = absurd (ground (arith, h))

pub not_succeeded :
    (c : Option (ℤ × ℕ)) (r : Result (Unit {0})) → succeeded (after_answer c r) ≡ false
not_succeeded c (ok u) = refl
not_succeeded c (err e) = refl

pub checked_within :
    (settings : Settings) (c : Option (ℤ × ℕ)) (r : Result (Unit {0}))
    → ((u : Unit {0}) → r ≡ ok u → count_of c ≤ settings.login_max_failures_per_account)
    → is_checked (after_answer c r) ≡ true
    → number_of (after_answer c r) ≤ settings.login_max_failures_per_account
checked_within settings c (ok u) low h = low u refl
checked_within settings c (err e) low h = absurd (ground (arith, h))
