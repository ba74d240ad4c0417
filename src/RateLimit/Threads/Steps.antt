-- ===== src/RateLimit/Threads/Steps.antt =====
-- Log ins that run at the same time (app/core/rate_limit.py): each step, and the numbers given out.
use assignment_cloud_instanc.Prelude.{
  ℕ, ◌≤◌, ◌<◌, ◌+◌, ◌≡◌, refl, sym, ap, ◌∙◌, Bool, true, false, Option, none, some, String, arith,
  Bool-cases, inl, inr,
}
use assignment_cloud_instanc.Prelude.Ints.{ℤ, pos, negsuc}
use assignment_cloud_instanc.Prelude.Threads.{put}
use assignment_cloud_instanc.Config.{Settings}
use assignment_cloud_instanc.Store.{seconds, add, delete}
use assignment_cloud_instanc.Store.Keys.{prefixes_differ, str_eq→eq}
use assignment_cloud_instanc.Store.Maps.{IsMap-add, IsMap-delete}
use assignment_cloud_instanc.Store.Others.{held-add_other, held-delete_other}
use assignment_cloud_instanc.RateLimit.{ip_key, count_ip, answer, released}
use assignment_cloud_instanc.RateLimit.Threads.{
  LoginThread, Place, counted, failed, clearing, returning, done, after_answer, Logins, account,
  Move, count_account, count_address, fail, succeed, clear, give_back,
}
use assignment_cloud_instanc.RateLimit.Threads.Numbers.{
  checked_within, holds_number, is_checked, not_succeeded, number_of, number_of-after_answer,
  succeeded, within_limit,
}
use assignment_cloud_instanc.RateLimit.Threads.Invariant.{
  watched as watched_of, is_target as is_target_of, Inv as InvOf, Inv-moved, Numbered-next,
  Inv-count,
}

module _ (strip_lower : String → String) (settings : Settings) (requests : ℕ → LoginThread)
    (target : String) (opened : ℕ) where
  abbrev watched : String
  watched = watched_of strip_lower settings requests target opened

  abbrev is_target : ℕ → Bool
  is_target = is_target_of strip_lower settings requests target opened

  abbrev deadline : ℕ
  deadline = opened + seconds settings.login_window_seconds

  abbrev Inv : Logins → Type 0
  Inv = InvOf strip_lower settings requests target opened

  module _ (wrong : (i : ℕ) → is_target i ≡ true → (requests i).is_right ≡ false) (i : ℕ)
      (s : Logins) (inv : Inv s) where
    Inv-count_account :
        (now : ℕ)
        → s.clock ≤ now
        → now < deadline
        → let out =
            add
              (account strip_lower settings requests i)
              (pos 1)
              settings.login_window_seconds
              now
              s.store in
          Inv (record { store = out.1; clock = now; place = put i (counted out.0) s.place })
    Inv-count_account now h lt = elim (Bool-cases (is_target i)) [
      | inl here ↦ rw (str_eq→eq here) (
          Inv-count strip_lower settings requests target opened s inv i now
            (add watched (pos 1) settings.login_window_seconds now s.store) h
            (IsMap-add watched now s.store inv.is_map (pos 1) settings.login_window_seconds)
            (Numbered-next strip_lower settings requests target opened s.store inv.is_map now
              (omega (arith, inv.since)) lt inv.given inv.expires inv.late (inv.counter now h lt)))
      | inr other ↦
          let key = account strip_lower settings requests i in
          let out = add key (pos 1) settings.login_window_seconds now s.store in
          Inv-moved strip_lower settings requests target opened s inv i (counted out.0) out.1 now h
            (IsMap-add key now s.store inv.is_map (pos 1) settings.login_window_seconds)
            (λ t le.
              held-add_other key watched t other (pos 1) settings.login_window_seconds now s.store
                le inv.is_map)
            (λ here. absurd (ground (arith, here, other)))
            (λ here. absurd (ground (arith, here, other))) (λ here. refl)
    ]

    -- What a request does to the counter of its address.
    Inv-other :
        (p : Place) (now : ℕ) (amount : ℤ)
        → s.clock ≤ now
        → (is_target i ≡ true
            → holds_number p ≡ true
            → (holds_number (s.place i) ≡ true) × (number_of p ≡ number_of (s.place i)))
        → (is_target i ≡ true
            → is_checked p ≡ true
            → number_of p ≤ settings.login_max_failures_per_account)
        → (is_target i ≡ true → succeeded p ≡ false)
        → Inv (record {
          store =
              (add
                (ip_key (requests i).client_ip)
                amount
                settings.login_window_seconds
                now
                s.store).1;
          clock = now;
          place = put i p s.place;
        })
    Inv-other p now amount h kept low right =
        let key = ip_key (requests i).client_ip in
        Inv-moved strip_lower settings requests target opened s inv i p
          (add key amount settings.login_window_seconds now s.store).1 now h
          (IsMap-add key now s.store inv.is_map amount settings.login_window_seconds)
          (λ t le.
            held-add_other key watched t
              (prefixes_differ "login:ip:" "login:account:" (requests i).client_ip
                (strip_lower target) refl)
              amount settings.login_window_seconds now s.store le inv.is_map)
          kept low right

    Inv-stays :
        (p : Place)
        → (is_target i ≡ true
            → holds_number p ≡ true
            → (holds_number (s.place i) ≡ true) × (number_of p ≡ number_of (s.place i)))
        → (is_target i ≡ true
            → is_checked p ≡ true
            → number_of p ≤ settings.login_max_failures_per_account)
        → (is_target i ≡ true → succeeded p ≡ false)
        → Inv (record s { place = put i p s.place })
    Inv-stays p kept low right =
        Inv-moved strip_lower settings requests target opened s inv i p s.store s.clock
          (omega arith) inv.is_map (λ t le. refl) kept low right

    Inv-count_address :
        (now : ℕ) (c : Option (ℤ × ℕ))
        → s.clock ≤ now
        → s.place i ≡ counted c
        → let out =
            count_ip strip_lower settings (requests i).email (requests i).client_ip c now s.store in
          Inv (record {
            store = out.1;
            clock = now;
            place = put i (after_answer c (answer settings c out.0)) s.place;
          })
    Inv-count_address now none h at =
        Inv-moved strip_lower settings requests target opened s inv i
          (after_answer none (answer settings none none)) s.store now h inv.is_map (λ t le. refl)
          (λ here. ground arith) (λ here. ground arith) (λ here. refl)
    Inv-count_address now (some c) h at =
        let out =
          add (ip_key (requests i).client_ip) (pos 1) settings.login_window_seconds now s.store in
        let r = answer settings (some c) out.0 in
        Inv-other (after_answer (some c) r) now (pos 1) h
          (λ here holds.
            (ap holds_number at, number_of-after_answer (some c) r holds ∙ sym (ap number_of at)))
          (λ here. checked_within settings (some c) r (λ u. within_limit settings (some c) out.0))
          (λ here. not_succeeded (some c) r)

    pub Inv-Move :
        (s' : Logins) → Move strip_lower settings requests i s s' → s'.clock < deadline → Inv s'
    Inv-Move s' (count_account now h at) lt = Inv-count_account now h lt
    Inv-Move s' (count_address now c h at) lt = Inv-count_address now c h at
    Inv-Move s' (fail c at bad) lt =
        Inv-stays (failed c) (λ here holds. (ap holds_number at, sym (ap number_of at)))
          (λ here checked. ground (arith, at, inv.within i)) (λ here. refl)
    Inv-Move s' (succeed c at good) lt =
        Inv-stays clearing (λ here. ground arith) (λ here. ground arith)
          (λ here. absurd (ground (arith, good, wrong i here)))
    Inv-Move s' (clear at) lt = elim (Bool-cases (is_target i)) [
      | inl here ↦ absurd (ground (arith, at, inv.wrong i here))
      | inr other ↦
          let key = account strip_lower settings requests i in
          Inv-moved strip_lower settings requests target opened s inv i returning
            (delete key s.store) s.clock (omega arith) (IsMap-delete key s.store inv.is_map)
            (λ t le. held-delete_other key watched t other s.store inv.is_map)
            (λ here. ground arith) (λ here. ground arith)
            (λ here. absurd (ground (arith, here, other)))
    ]
    Inv-Move s' (give_back now h at) lt =
        Inv-other
          (done (
            released
              (add (ip_key (requests i).client_ip) (negsuc 0) settings.login_window_seconds now
                s.store).0))
          now (negsuc 0) h (λ here. ground arith) (λ here. ground arith) (λ here. refl)
