-- ===== src/Api/Logins.antt =====
-- Log in and log out (app/controllers/auth_controller.py), with what they do to the calls that
-- follow.
use assignment_cloud_instanc.Prelude.{
  ℕ, ◌≤◌, ◌<◌, ◌≡◌, refl, ap, ◌∙◌, false, Option, none, some, String, List, arith, leb, ◌⊎◌, inl,
  inr,
}
use assignment_cloud_instanc.Prelude.Ints.{ℤ, pos, negsuc, ◌+ℤ◌}
use assignment_cloud_instanc.Models.{Member}
use assignment_cloud_instanc.Config.{Settings}
use assignment_cloud_instanc.Session.{Result, ok, err, Failure}
use assignment_cloud_instanc.Store.{Store, number, counter_of, retry_after}
use assignment_cloud_instanc.Store.Live.{IsMap, held, unexpired}
use assignment_cloud_instanc.RateLimit.{verdict, reserve_login_attempt, release_login_attempt}
use assignment_cloud_instanc.RateLimit.Attempts.{
  account, ip, Counted, reserve_counts, release_counts,
}
use assignment_cloud_instanc.Schemas.{LoginRequest}
use assignment_cloud_instanc.Controllers.AuthRoutes.{
  Services, Attempt, by_email, invalid_login, issue, issued, verified, after_check, after_reserve,
  login,
}

module _ (services : Services) (settings : Settings) (body : LoginRequest) (attempt : Attempt)
    (members : List Member) (st : Store) where
  abbrev reserved : Result (Unit {0}) × Store
  reserved =
      reserve_login_attempt services.strip_lower settings body.email attempt.client_ip
        attempt.account_now attempt.ip_now st

  abbrev released : Store → Result (Unit {0}) × Store
  released st' =
      release_login_attempt services.strip_lower settings body.email attempt.client_ip
        attempt.release_now st'

  abbrev who : Option Member
  who = verified services settings body attempt (by_email body.email members)

  blocked :
      (out : Result (Unit {0}) × Store) {e : Failure}
      → out.0 ≡ err e
      → after_reserve services settings body attempt members out ≡ (err e, out.1)
  blocked (ok u, st') h = absurd (ground arith)
  blocked (err f, st') h = ap (λ r. (r, st')) (ground (arith, h))

  let_in :
      (out : Result (Unit {0}) × Store)
      → out.0 ≡ ok tt
      → after_reserve services settings body attempt members out
        ≡ after_check services settings body attempt who out.1
  let_in (ok u, st') h = refl
  let_in (err f, st') h = absurd (ground arith)

  login_blocked :
      {e : Failure}
      → reserved.0 ≡ err e
      → login services settings body attempt members st ≡ (err e, reserved.1)
  unfolding login
  login_blocked h = blocked reserved h

  login_let_in :
      reserved.0 ≡ ok tt
      → login services settings body attempt members st
        ≡ after_check services settings body attempt who reserved.1
  unfolding login
  login_let_in h = let_in reserved h

  released_then :
      (member : Member) (out : Result (Unit {0}) × Store)
      → out.0 ≡ ok tt
      → issued services settings body attempt member out
        ≡ (ok (issue services settings body attempt member), out.1)
  released_then member (ok u, st') h = refl
  released_then member (err f, st') h = absurd (ground arith)

module _ (services : Services) (settings : Settings) (body : LoginRequest) (attempt : Attempt)
    (members : List Member) (st : Store) (m : IsMap st.entries)
    (forward : attempt.account_now ≤ attempt.ip_now) where
  abbrev window : ℕ
  window = settings.login_window_seconds

  abbrev pub account_of : String
  account_of = account services.strip_lower settings body.email attempt.client_ip

  abbrev pub ip_of : String
  ip_of = ip services.strip_lower settings body.email attempt.client_ip

  still_counted :
      (k : String) (z : ℤ) (ends now : ℕ)
      → now < ends
      → counter_of now window
          (unexpired now (some (record { key = k; value = number (z +ℤ pos 1); expires = ends })))
        ≡ some (z +ℤ pos 1, ends)
  still_counted k z ends now early =
      let alive : leb ends now ≡ false = ground arith in rw alive refl

  -- The verdict on two counters, each raised by one.
  abbrev pub decided : ℤ × ℕ → ℤ × ℕ → Result (Unit {0})
  decided c d =
      verdict settings (c.0 +ℤ pos 1, retry_after c.1 attempt.account_now)
        (d.0 +ℤ pos 1, retry_after d.1 attempt.ip_now)

  module _ (c d : ℤ × ℕ)
      (counted : counter_of attempt.account_now window (held account_of attempt.account_now st)
        ≡ some c)
      (counted_ip : counter_of attempt.ip_now window (held ip_of attempt.ip_now st) ≡ some d) where
    -- On a store with every key once, at readings of the clock that do not go back, when both
    -- entries are counters or absent: a log in over a limit answers the refusal of the limit,
    -- whatever the password, and one below it with an unknown address or a wrong password
    -- answers one and the same error; either way both counters stay raised by one.
    pub login_refused :
        (t : ℕ) {e : Failure}
        → attempt.ip_now ≤ t
        → (decided c d ≡ err e)
          ⊎ ((decided c d ≡ ok tt)
              × (e ≡ invalid_login)
              × (verified services settings body attempt (by_email body.email members) ≡ none))
        → let out = login services settings body attempt members st in
          (out.0 ≡ err e)
          × Counted services.strip_lower settings body.email attempt.client_ip t
              (c.0 +ℤ pos 1, c.1)
              (d.0 +ℤ pos 1, d.1)
              out.1
    login_refused t h cause =
        let out =
          reserve_counts services.strip_lower settings body.email attempt.client_ip
            attempt.account_now attempt.ip_now t forward h st m counted counted_ip in
        elim cause [
          | inl over ↦
              rw (login_blocked services settings body attempt members st (out.0 ∙ over))
                (refl, out.1)
          | inr (under, same, nobody) ↦
              rw
                (
                  login_let_in services settings body attempt members st (out.0 ∙ under),
                  nobody,
                  same,
                )
                (refl, out.1)
        ]

    -- On a store with every key once, at readings of the clock that do not go back, when both
    -- entries are counters or absent and neither limit is exceeded: a log in with the password
    -- of the member of the address answers that member's token, leaves no counter for the
    -- account, and leaves the counter of the client address, within its window, one up and one
    -- down again.
    pub login_issues :
        (t : ℕ) {member : Member}
        → attempt.ip_now ≤ attempt.release_now
        → attempt.release_now ≤ t
        → attempt.release_now < d.1
        → decided c d ≡ ok tt
        → verified services settings body attempt (by_email body.email members) ≡ some member
        → let out = login services settings body attempt members st in
          (out.0 ≡ ok (issue services settings body attempt member))
          × (held account_of t out.1 ≡ none)
          × (held ip_of t out.1
              ≡ unexpired t (
                  some (record {
                    key = ip_of;
                    value = number ((d.0 +ℤ pos 1) +ℤ negsuc 0);
                    expires = d.1;
                  })))
    login_issues t {member} h g early under known =
        let out =
          reserve_counts services.strip_lower settings body.email attempt.client_ip
            attempt.account_now attempt.ip_now attempt.release_now forward h st m counted
            counted_ip in
        let held_ip : counter_of attempt.release_now window (
              held ip_of attempt.release_now (reserved services settings body attempt members st).1)
            ≡ some (d.0 +ℤ pos 1, d.1) =
          ap (counter_of attempt.release_now window) out.1.ip_held
          ∙ still_counted ip_of d.0 d.1 attempt.release_now early in
        let given =
          release_counts services.strip_lower settings body.email attempt.client_ip
            attempt.release_now t (reserved services settings body attempt members st).1 g
            out.1.is_map held_ip in
        rw (login_let_in services settings body attempt members st (out.0 ∙ under), known)
          (rw
            (released_then services settings body attempt members st member
              (released services settings body attempt members st
                (reserved services settings body attempt members st).1)
              given.0)
            (refl, given.1, given.2))
