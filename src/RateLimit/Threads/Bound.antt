-- ===== src/RateLimit/Threads/Bound.antt =====
-- Log ins that run at the same time (app/core/rate_limit.py): how many passwords are checked.
use text.Mathlib.Text.{◌==◌ as str_eq}
use assignment_cloud_instanc.Prelude.{
  ℕ, ◌≤◌, ◌<◌, ◌+◌, ◌≡◌, ◌≢◌, refl, true, false, none, Option, some, String, List, [], ◌∷◌, arith,
  map, length, length-map, All, Ordered,
}
use assignment_cloud_instanc.Prelude.Threads.{pigeonhole}
use assignment_cloud_instanc.Config.{Settings}
use assignment_cloud_instanc.Store.{Entry, seconds}
use assignment_cloud_instanc.Store.Live.{IsMap, held, unexpired}
use assignment_cloud_instanc.RateLimit.{account_key}
use assignment_cloud_instanc.RateLimit.Threads.{
  LoginThread, Place, start, checking, failed, Logins, Move, count_account, count_address, fail,
  succeed, clear, give_back, Reached, begun, moved,
}
use assignment_cloud_instanc.RateLimit.Threads.Numbers.{number_of, is_checked, holds_number}
use assignment_cloud_instanc.RateLimit.Threads.Steps.{Inv-Move}
use assignment_cloud_instanc.RateLimit.Threads.Invariant.{Inv}

-- What is gone stays gone.
still_none :
    (now t : ℕ) (o : Option Entry) → now ≤ t → unexpired now o ≡ none → unexpired t o ≡ none
still_none now t none h e = refl
still_none now t (some x) h e = ground (arith, h, e)

checked_holds : (p : Place) → is_checked p ≡ true → holds_number p ≡ true
checked_holds (checking c) h = refl
checked_holds (failed c) h = refl
checked_holds _ h = absurd (ground (arith, h))

module _ (strip_lower : String → String) (settings : Settings) (requests : ℕ → LoginThread)
    (target : String) where
  clock_forward :
      (i : ℕ) (s s' : Logins) → Move strip_lower settings requests i s s' → s.clock ≤ s'.clock
  clock_forward i s s' (count_account now h at) = h
  clock_forward i s s' (count_address now c h at) = h
  clock_forward i s s' (fail c at bad) = omega arith
  clock_forward i s s' (succeed c at good) = omega arith
  clock_forward i s s' (clear at) = omega arith
  clock_forward i s s' (give_back now h at) = h

  -- The request is for the watched account, and its password was checked.
  abbrev pub Guessed : Logins → ℕ → Type 0
  Guessed s i =
      (str_eq (account_key strip_lower (requests i).email) (account_key strip_lower target) ≡ true)
      × (is_checked (s.place i) ≡ true)

  module _ (s0 : Logins) (m : IsMap s0.store.entries)
      (fresh : held (account_key strip_lower target) s0.clock s0.store ≡ none)
      (waiting : (i : ℕ)
        → str_eq (account_key strip_lower (requests i).email) (account_key strip_lower target)
          ≡ true
        → s0.place i ≡ start)
      (wrong : (i : ℕ)
        → str_eq (account_key strip_lower (requests i).email) (account_key strip_lower target)
          ≡ true
        → (requests i).is_right ≡ false) where
    Inv-begun : Inv strip_lower settings requests target s0.clock s0
    Inv-begun = record {
      is_map = m;
      since = omega arith;
      given = 0;
      expires = s0.clock + seconds settings.login_window_seconds;
      late = omega arith;
      counter = λ t le lt. still_none s0.clock t _ le fresh;
      numbers = λ i here. ground (arith, waiting i here);
      apart = λ i j here there. ground (arith, waiting i here);
      within = λ i here. ground (arith, waiting i here);
      wrong = λ i here. ground (arith, waiting i here);
    }

    Inv-Reached :
        (s : Logins)
        → Reached strip_lower settings requests s0 s
        → s.clock < s0.clock + seconds settings.login_window_seconds
        → Inv strip_lower settings requests target s0.clock s
    Inv-Reached s begun lt = Inv-begun
    Inv-Reached s' (moved i s s'' before move) lt =
        Inv-Move strip_lower settings requests target s0.clock wrong i s
          (Inv-Reached s before (omega (arith, clock_forward i s s' move, lt))) s' move lt

    module _ (s : Logins) (inv : Inv strip_lower settings requests target s0.clock s) where
      abbrev number : ℕ → ℕ
      number i = number_of (s.place i)

      numbers_within :
          (is : List ℕ)
          → All (Guessed s) is
          → All (λ k. (1 ≤ k) × (k ≤ settings.login_max_failures_per_account)) (map number is)
      numbers_within [] h = tt
      numbers_within (i ∷ is) h =
          let (here, checked) = h.0 in
          (
            ((inv.numbers i here (checked_holds (s.place i) checked)).0, inv.within i here checked),
            numbers_within is h.1,
          )

      others_apart :
          (i : ℕ) (is : List ℕ)
          → Guessed s i
          → All (Guessed s) is
          → All (λ j. i ≢ j) is
          → All (λ k. number i ≢ k) (map number is)
      others_apart i [] g h d = tt
      others_apart i (j ∷ is) g h d = (
        λ e. d.0 (
            inv.apart i j g.0 h.0.0 (checked_holds (s.place i) g.1)
              (checked_holds (s.place j) h.0.1) e),
        others_apart i is g h.1 d.1,
      )

      numbers_apart :
          (is : List ℕ)
          → All (Guessed s) is
          → Ordered (λ i j. i ≢ j) is
          → Ordered (λ k l. k ≢ l) (map number is)
      numbers_apart [] h d = tt
      numbers_apart (i ∷ is) h d = (others_apart i is h.0 h.1 d.0, numbers_apart is h.1 d.1)

    -- However the steps of any number of log ins interleave, from a store with every key once
    -- that holds no counter of an account, and requests for that account not begun: as long as
    -- less than one window has passed, and if no request for the account has the right
    -- password, at most as many passwords of the account are checked as the limit allows.
    pub guesses_bounded :
        (s : Logins)
        → Reached strip_lower settings requests s0 s
        → s.clock < s0.clock + seconds settings.login_window_seconds
        → (is : List ℕ) → Ordered (λ i j. i ≢ j) is
        → All (Guessed s) is
        → length is ≤ settings.login_max_failures_per_account
    guesses_bounded s reached lt is d h =
        let inv = Inv-Reached s reached lt in
        let few =
          pigeonhole settings.login_max_failures_per_account (map (number s inv) is)
            (numbers_apart s inv is h d) (numbers_within s inv is h) in
        omega (arith, few, length-map (λ i. number_of (s.place i)) is)
