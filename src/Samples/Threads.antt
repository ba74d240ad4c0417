-- ===== src/Samples/Threads.antt =====
-- The theorems at concrete inputs: threads that log in or build at the same time, and calls of the store.
use assignment_cloud_instanc.Prelude.{
  ℕ, ◌≤◌, ◌≡◌, refl, false, none, some, List, [], ◌∷◌, arith, length,
}
use assignment_cloud_instanc.Prelude.Ints.{pos, negsuc}
use assignment_cloud_instanc.Prelude.Threads.{put}
use assignment_cloud_instanc.Config.{defaults}
use assignment_cloud_instanc.Store.{str, new_store, add}
use assignment_cloud_instanc.Store.Ideal.{
  Operation, get_value, exists_key, delete_key, set_value, add_amount, replies, ideal_replies,
}
use assignment_cloud_instanc.Store.Refines.{store_refines}
use assignment_cloud_instanc.Store.Singleton.{
  Process, cold, waiting, inside, Reached, booted, moved, first_test_miss, acquire,
}
use assignment_cloud_instanc.Store.Singleton.Progress.{Returns, Reached-Returns}
use assignment_cloud_instanc.RateLimit.Threads
use assignment_cloud_instanc.RateLimit.Threads.{
  LoginThread, Logins, start, checking, count_account, count_address, fail,
}
use assignment_cloud_instanc.RateLimit.Threads.Bound.{guesses_bounded}

-- Guesses at one account from one address.
abbrev guesses : ℕ → LoginThread
guesses i = record { email = "a@example.com"; client_ip = "10.0.0.1"; is_right = false }

abbrev asleep : Logins
asleep = record { store = new_store 0; clock = 0; place = λ i. start }

-- Both are counted before either is let through.
both_guess :
    (s : Logins) × Threads.Reached (λ e. e) defaults guesses asleep s
    × (s.clock ≡ 8)
    × (Threads.Bound.Guessed (λ e. e) defaults guesses "a@example.com" s 0)
    × (Threads.Bound.Guessed (λ e. e) defaults guesses "a@example.com" s 1)
unfolding add
both_guess = (
  _,
  Threads.moved 1 _ _
      (Threads.moved 0 _ _
        (Threads.moved 1 _ _
          (Threads.moved 0 _ _ Threads.begun (count_account 5 (omega arith) refl))
          (count_account 6 (omega arith) refl))
        (count_address 7 _ (omega arith) refl))
      (count_address 8 _ (omega arith) refl),
  refl,
  (refl, refl),
  (refl, refl),
)

guesses_bounded_example : length {A = ℕ} (0 ∷ 1 ∷ []) ≤ defaults.login_max_failures_per_account
unfolding both_guess
guesses_bounded_example =
    guesses_bounded (λ e. e) defaults guesses "a@example.com" asleep tt refl (λ i here. refl)
      (λ i here. refl) both_guess.0 both_guess.1 (omega arith) (0 ∷ 1 ∷ [])
      ((λ e. absurd (omega arith), tt), (tt, tt)) (both_guess.3, (both_guess.4, tt))

abbrev calls : List (Operation × ℕ)
calls =
    (add_amount "n" (pos 1) 2, 10)
    ∷ (set_value "k" (str "text") 1, 20)
    ∷ (add_amount "n" (pos 1) 2, 1_000_000)
    ∷ (get_value "k", 1_000_021)
    ∷ (exists_key "n", 2_000_009)
    ∷ (exists_key "n", 2_000_010)
    ∷ (delete_key "n", 70_000_000)
    ∷ (add_amount "n" (negsuc 0) 2, 70_000_001)
    ∷ []

store_refines_example : replies calls (new_store 0) ≡ ideal_replies calls (λ k. none)
store_refines_example = store_refines 0 calls (omega arith)

abbrev first_waits : Process
first_waits = record cold { place = put 0 waiting cold.place }

abbrev first_inside : Process
first_inside = record first_waits { holder = some 0; place = put 0 inside first_waits.place }

abbrev second_waits : Process
second_waits = record first_inside { place = put 1 waiting first_inside.place }

contended : Reached second_waits
contended =
    moved 1 first_inside second_waits
      (moved 0 first_waits first_inside
        (moved 0 cold first_waits booted (first_test_miss refl refl)) (acquire refl refl))
      (first_test_miss refl refl)

Reached-Returns_example : Returns 1 second_waits
Reached-Returns_example = Reached-Returns second_waits contended 1
