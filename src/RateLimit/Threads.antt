-- ===== src/RateLimit/Threads.antt =====
-- Log ins that run at the same time (app/controllers/auth_controller.py `login`, with
-- app/core/rate_limit.py): every operation of the store is one step under its lock, and the steps of
-- different requests come in any order.
pub mod Numbers
pub mod Invariant
pub mod Steps
pub mod Bound
use assignment_cloud_instanc.Prelude.{ℕ, ◌≤◌, ◌≡◌, Bool, true, false, Option, String}
use assignment_cloud_instanc.Prelude.Ints.{ℤ, pos, negsuc}
use assignment_cloud_instanc.Prelude.Threads.{put}
use assignment_cloud_instanc.Config.{Settings}
use assignment_cloud_instanc.Session.{Failure, Result, ok, err}
use assignment_cloud_instanc.Store.{Store, add, delete}
use assignment_cloud_instanc.RateLimit.{account_key, ip_key, count_ip, answer, released}

-- One request: the address and the password of its body come to whether a member has that address and
-- the password is theirs.
pub record LoginThread : Type 0 where
  pub email : String
  pub client_ip : String
  pub is_right : Bool

-- Where a request stands: before the reservation; between the two `add`s; refused with 429 (or 500);
-- let through to the password check; refused with 401; before `store.delete`, before the last `add`,
-- and at the end. `account_count` is kept from the reservation on.
pub data Place : Type 0 where
  start : Place
  counted : Option (ℤ × ℕ) → Place
  refused : Failure → Place
  checking : Option (ℤ × ℕ) → Place
  failed : Option (ℤ × ℕ) → Place
  clearing : Place
  returning : Place
  done : Result (Unit {0}) → Place

-- The end of `reserve_login_attempt`.
abbrev pub after_answer : Option (ℤ × ℕ) → Result (Unit {0}) → Place
after_answer account (ok u) = checking account
after_answer account (err e) = refused e

-- The store, the last reading of its clock, and the requests.
pub record Logins : Type 0 where
  pub store : Store
  pub clock : ℕ
  pub place : ℕ → Place

module _ (strip_lower : String → String) (settings : Settings) (requests : ℕ → LoginThread) where
  abbrev pub account : ℕ → String
  account i = account_key strip_lower (requests i).email

  abbrev pub window : ℕ
  window = settings.login_window_seconds

  -- The clock of the store does not go back.
  pub data Move (i : ℕ) (s : Logins) : Logins → Type 0 where
    count_account :
        (now : ℕ)
        → s.clock ≤ now
        → s.place i ≡ start
        → Move i s (record {
          store = (add (account i) (pos 1) window now s.store).1;
          clock = now;
          place = put i (counted (add (account i) (pos 1) window now s.store).0) s.place;
        })
    count_address :
        (now : ℕ) (c : Option (ℤ × ℕ))
        → s.clock ≤ now
        → s.place i ≡ counted c
        → Move i s (record {
          store =
              (count_ip strip_lower settings
                (requests i).email
                (requests i).client_ip
                c
                now
                s.store).1;
          clock = now;
          place =
              put i
                (after_answer c (
                  answer settings c
                    (count_ip strip_lower settings
                      (requests i).email
                      (requests i).client_ip
                      c
                      now
                      s.store).0))
                s.place;
        })
    fail :
        (c : Option (ℤ × ℕ))
        → s.place i ≡ checking c
        → (requests i).is_right ≡ false
        → Move i s (record s { place = put i (failed c) s.place })
    succeed :
        (c : Option (ℤ × ℕ))
        → s.place i ≡ checking c
        → (requests i).is_right ≡ true
        → Move i s (record s { place = put i clearing s.place })
    clear :
        s.place i ≡ clearing
        → Move i s
            (record s { store = delete (account i) s.store; place = put i returning s.place })
    give_back :
        (now : ℕ)
        → s.clock ≤ now
        → s.place i ≡ returning
        → Move i s (record {
          store = (add (ip_key (requests i).client_ip) (negsuc 0) window now s.store).1;
          clock = now;
          place =
              put i
                (done
                  (released (add (ip_key (requests i).client_ip) (negsuc 0) window now s.store).0))
                s.place;
        })

  pub data Reached (s0 : Logins) : Logins → Type 0 where
    begun : Reached s0 s0
    moved : (i : ℕ) (s s' : Logins) → Reached s0 s → Move i s s' → Reached s0 s'
