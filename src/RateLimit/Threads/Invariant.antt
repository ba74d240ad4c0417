-- ===== src/RateLimit/Threads/Invariant.antt =====
-- Log ins that run at the same time (app/core/rate_limit.py): the numbers that the counter of one account
-- gives out.
use text.Mathlib.Text.{◌==◌ as str_eq}
use assignment_cloud_instanc.Prelude.{
  ℕ, zero, suc, ◌≤◌, ◌<◌, ◌+◌, ◌≡◌, refl, ap, ◌∙◌, Bool, true, false, Option, none, some, String,
  arith, leb, ==→eq,
}
use assignment_cloud_instanc.Prelude.Ints.{ℤ, pos, ◌+ℤ◌}
use assignment_cloud_instanc.Prelude.Threads.{put}
use assignment_cloud_instanc.Config.{Settings}
use assignment_cloud_instanc.Store.{Entry, Store, number, seconds, add, counter_of}
use assignment_cloud_instanc.Store.Keys.{str_eq_self}
use assignment_cloud_instanc.Store.Live.{IsMap, held, unexpired}
use assignment_cloud_instanc.Store.Timed.{add_counts}
use assignment_cloud_instanc.RateLimit.{account_key}
use assignment_cloud_instanc.RateLimit.Threads.{LoginThread, Place, counted, Logins, account}
use assignment_cloud_instanc.RateLimit.Threads.Numbers.{
  count_of, holds_number, is_checked, number_of, succeeded,
}

module _ (strip_lower : String → String) (settings : Settings) (requests : ℕ → LoginThread)
    (target : String) (opened : ℕ) where
  -- The account that is watched.
  abbrev pub watched : String
  watched = account_key strip_lower target

  abbrev pub is_target : ℕ → Bool
  is_target i = str_eq (account strip_lower settings requests i) watched

  abbrev pub deadline : ℕ
  deadline = opened + seconds settings.login_window_seconds

  abbrev entry : ℕ → ℕ → Option Entry
  entry zero expires = none
  entry (suc n) expires =
      some (record { key = watched; value = number (pos (suc n)); expires = expires })

  -- The first `given` numbers went to different requests, and the counter stands there.
  pub record Inv (s : Logins) : Type 0 where
    pub is_map : IsMap s.store.entries
    pub since : opened ≤ s.clock
    pub given : ℕ
    pub expires : ℕ
    pub late : deadline ≤ expires
    pub counter :
        (t : ℕ) → s.clock ≤ t → t < deadline → held watched t s.store ≡ entry given expires
    pub numbers :
        (i : ℕ)
        → is_target i ≡ true
        → holds_number (s.place i) ≡ true
        → (1 ≤ number_of (s.place i)) × (number_of (s.place i) ≤ given)
    pub apart :
        (i j : ℕ)
        → is_target i ≡ true
        → is_target j ≡ true
        → holds_number (s.place i) ≡ true
        → holds_number (s.place j) ≡ true
        → number_of (s.place i) ≡ number_of (s.place j)
        → i ≡ j
    pub within :
        (i : ℕ)
        → is_target i ≡ true
        → is_checked (s.place i) ≡ true
        → number_of (s.place i) ≤ settings.login_max_failures_per_account
    pub wrong : (i : ℕ) → is_target i ≡ true → succeeded (s.place i) ≡ false

  -- A request goes on to `p`, and the counter of the account stays.
  module _ (s : Logins) (inv : Inv s) (i : ℕ) (p : Place) (st : Store) (now : ℕ) (h : s.clock ≤ now)
      (is_map : IsMap st.entries)
      (same : (t : ℕ) → now ≤ t → held watched t st ≡ held watched t s.store)
      (kept : is_target i ≡ true
        → holds_number p ≡ true
        → (holds_number (s.place i) ≡ true) × (number_of p ≡ number_of (s.place i)))
      (low : is_target i ≡ true
        → is_checked p ≡ true
        → number_of p ≤ settings.login_max_failures_per_account)
      (right : is_target i ≡ true → succeeded p ≡ false) where
    pub Inv-moved : Inv (record { store = st; clock = now; place = put i p s.place })
    Inv-moved = record {
      is_map = is_map;
      since = omega (arith, inv.since);
      given = inv.given;
      expires = inv.expires;
      late = inv.late;
      counter = λ t le lt. same t le ∙ inv.counter t (omega arith) lt;
      numbers = λ j. ground (arith, ==→eq j i, inv.numbers j, kept);
      apart = λ j k tj tk hj hk e. ground (arith, ==→eq j i, ==→eq k i, inv.apart j k, kept);
      within = λ j. ground (arith, ==→eq j i, inv.within j, low);
      wrong = λ j. ground (arith, ==→eq j i, inv.wrong j, right);
    }

  -- The next number, and the counter behind it.
  pub record Numbered (given now : ℕ) (out : Option (ℤ × ℕ) × Store) : Type 0 where
    pub expires : ℕ
    pub late : deadline ≤ expires
    pub number : count_of out.0 ≡ suc given
    pub counter :
        (t : ℕ) → now ≤ t → t < deadline → held watched t out.1 ≡ entry (suc given) expires

  still_held :
      (n t expires : ℕ)
      → t < deadline
      → deadline ≤ expires
      → unexpired t
          (some (record { key = watched; value = number (pos n +ℤ pos 1); expires = expires }))
        ≡ entry (suc n) expires
  still_held n t expires lt late =
      let more : n + 1 ≡ suc n = omega arith in
      let fresh : leb expires t ≡ false = ground arith in rw fresh (rw more refl)

  module _ (st : Store) (m : IsMap st.entries) (now : ℕ) (since : opened ≤ now)
      (lt : now < deadline) where
    Numbered-add :
        (given expires : ℕ)
        → deadline ≤ expires
        → counter_of now settings.login_window_seconds (held watched now st)
          ≡ some (pos given, expires)
        → Numbered given now (add watched (pos 1) settings.login_window_seconds now st)
    Numbered-add given expires late e =
        let more : given + 1 ≡ suc given = omega arith in
        let first =
          add_counts watched watched now now (omega arith) st m (pos 1)
            settings.login_window_seconds e in
        record {
          expires = expires;
          late = late;
          number = ap count_of first.0 ∙ more;
          counter = λ t le before.
              rw str_eq_self at
                (add_counts watched watched now t le st m (pos 1) settings.login_window_seconds e).1
              ∙ still_held given t expires before late;
        }

    pub Numbered-next :
        (given expires : ℕ)
        → deadline ≤ expires
        → held watched now st ≡ entry given expires
        → Numbered given now (add watched (pos 1) settings.login_window_seconds now st)
    Numbered-next zero expires late e =
        Numbered-add 0 (now + seconds settings.login_window_seconds) (omega arith) (rw e refl)
    Numbered-next (suc n) expires late e = Numbered-add (suc n) expires late (rw e refl)

  -- A request of the account takes the next number.
  pub Inv-count :
      (s : Logins) (inv : Inv s) (i now : ℕ) (out : Option (ℤ × ℕ) × Store)
      → s.clock ≤ now
      → IsMap out.1.entries
      → Numbered inv.given now out
      → Inv (record { store = out.1; clock = now; place = put i (counted out.0) s.place })
  Inv-count s inv i now out h m new = record {
    is_map = m;
    since = omega (arith, inv.since);
    given = suc inv.given;
    expires = new.expires;
    late = new.late;
    counter = new.counter;
    numbers = λ j. ground (arith, inv.numbers j, new.number);
    apart = λ j k tj tk hj hk e.
        ground
          (arith, ==→eq j i, ==→eq k i, inv.apart j k, inv.numbers j, inv.numbers k, new.number);
    within = λ j. ground (arith, inv.within j);
    wrong = λ j. ground (arith, inv.wrong j);
  }
