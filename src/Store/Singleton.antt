-- ===== src/Store/Singleton.antt =====
-- app/core/store.py `get_store`, and app/services/llm_service.py `_get_client`: the double-checked lock that builds the
-- process's one object, for any number of threads.
pub mod Progress
use assignment_cloud_instanc.Prelude.Threads.{put}
use assignment_cloud_instanc.Prelude.{
  ℕ, ◌+◌, ◌≤◌, ◌≡◌, refl, sym, ap, ◌∙◌, Bool, true, false, Option, none, some, ◌==◌, ==→eq, arith,
  if◌then◌else◌,
}

-- Where a thread stands: before the first test, waiting for the lock, behind the lock before the second test,
-- building, behind the lock with the object there, and returned.
pub data Place : Type 0 where
  start waiting inside building leaving : Place
  returned : ℕ → Place

-- `_store` or `_client`, named by the number of the build that made it; who holds the lock; how many were built.
pub record Process : Type 0 where
  pub object : Option ℕ
  pub holder : Option ℕ
  pub builds : ℕ
  pub place : ℕ → Place

pub data Move (i : ℕ) (s : Process) : Process → Type 0 where
  first_test_hit :
      (v : ℕ)
      → s.place i ≡ start
      → s.object ≡ some v
      → Move i s (record s { place = put i (returned v) s.place })
  first_test_miss :
      s.place i ≡ start → s.object ≡ none → Move i s (record s { place = put i waiting s.place })
  acquire :
      s.place i ≡ waiting
      → s.holder ≡ none
      → Move i s (record s { holder = some i; place = put i inside s.place })
  second_test_hit :
      (v : ℕ)
      → s.place i ≡ inside
      → s.object ≡ some v
      → Move i s (record s { place = put i leaving s.place })
  second_test_miss :
      s.place i ≡ inside → s.object ≡ none → Move i s (record s { place = put i building s.place })
  build :
      s.place i ≡ building
      → Move i s (record s {
        object = some s.builds;
        builds = s.builds + 1;
        place = put i leaving s.place;
      })
  -- The construction raises: the lock is released, and the thread may call again.
  raise_error :
      s.place i ≡ building → Move i s (record s { holder = none; place = put i start s.place })
  leave :
      (v : ℕ)
      → s.place i ≡ leaving
      → s.object ≡ some v
      → Move i s (record s { holder = none; place = put i (returned v) s.place })

abbrev pub cold : Process
cold = record { object = none; holder = none; builds = 0; place = λ i. start }

pub data Reached : Process → Type 0 where
  booted : Reached cold
  moved : (i : ℕ) (s s' : Process) → Reached s → Move i s s' → Reached s'

abbrev holds : Place → Bool
holds inside = true
holds building = true
holds leaving = true
holds _ = false

abbrev builds_now : Place → Bool
builds_now building = true
builds_now _ = false

abbrev result_of : Place → Option ℕ
result_of (returned v) = some v
result_of _ = none

-- The objects that there are: none or one.
abbrev existing : Option ℕ → ℕ
existing none = 0
existing (some v) = 1

record IsSafe (s : Process) : Type 0 where
  pub exclusive : (j : ℕ) → holds (s.place j) ≡ true → s.holder ≡ some j
  pub unbuilt : (j : ℕ) → builds_now (s.place j) ≡ true → s.object ≡ none
  pub once : s.builds ≡ existing s.object
  pub agreed : (j v : ℕ) → result_of (s.place j) ≡ some v → s.object ≡ some v

builds_holds : (p : Place) → builds_now p ≡ true → holds p ≡ true
builds_holds building h = refl
builds_holds start h = absurd (ground arith)
builds_holds waiting h = absurd (ground arith)
builds_holds inside h = absurd (ground arith)
builds_holds leaving h = absurd (ground arith)
builds_holds (returned v) h = absurd (ground arith)

module _ (i : ℕ) (s : Process) (safe : IsSafe s) where
  exclusive-kept :
      (s' : Process) → Move i s s' → (j : ℕ) → holds (s'.place j) ≡ true → s'.holder ≡ some j
  exclusive-kept s' (first_test_hit v at hit) j h = ground (arith, h, safe.exclusive j)
  exclusive-kept s' (first_test_miss at miss) j h = ground (arith, h, safe.exclusive j)
  exclusive-kept s' (acquire at free) j h = ground (arith, h, free, safe.exclusive j, ==→eq j i)
  exclusive-kept s' (second_test_hit v at hit) j h =
      ground (arith, h, at, safe.exclusive j, safe.exclusive i, ==→eq j i)
  exclusive-kept s' (second_test_miss at miss) j h =
      ground (arith, h, at, safe.exclusive j, safe.exclusive i, ==→eq j i)
  exclusive-kept s' (build at) j h =
      ground (arith, h, at, safe.exclusive j, safe.exclusive i, ==→eq j i)
  exclusive-kept s' (raise_error at) j h = ground (arith, h, at, safe.exclusive j, safe.exclusive i)
  exclusive-kept s' (leave v at hit) j h = ground (arith, h, at, safe.exclusive j, safe.exclusive i)

  unbuilt-kept :
      (s' : Process) → Move i s s' → (j : ℕ) → builds_now (s'.place j) ≡ true → s'.object ≡ none
  unbuilt-kept s' (first_test_hit v at hit) j h = ground (arith, h, safe.unbuilt j)
  unbuilt-kept s' (first_test_miss at miss) j h = ground (arith, h, safe.unbuilt j)
  unbuilt-kept s' (acquire at free) j h = ground (arith, h, safe.unbuilt j)
  unbuilt-kept s' (second_test_hit v at hit) j h = ground (arith, h, safe.unbuilt j)
  unbuilt-kept s' (second_test_miss at miss) j h = ground (arith, h, miss, safe.unbuilt j)
  unbuilt-kept s' (build at) j h =
      ground (arith, h, at, safe.exclusive j, safe.exclusive i, builds_holds (s.place j))
  unbuilt-kept s' (raise_error at) j h = ground (arith, h, safe.unbuilt j)
  unbuilt-kept s' (leave v at hit) j h = ground (arith, h, safe.unbuilt j)

  once-kept : (s' : Process) → Move i s s' → s'.builds ≡ existing s'.object
  once-kept s' (first_test_hit v at hit) = safe.once
  once-kept s' (first_test_miss at miss) = safe.once
  once-kept s' (acquire at free) = safe.once
  once-kept s' (second_test_hit v at hit) = safe.once
  once-kept s' (second_test_miss at miss) = safe.once
  once-kept s' (build at) = ground (arith, at, safe.once, safe.unbuilt i)
  once-kept s' (raise_error at) = safe.once
  once-kept s' (leave v at hit) = safe.once

  agreed-kept :
      (s' : Process)
      → Move i s s'
      → (j v : ℕ) → result_of (s'.place j) ≡ some v
      → s'.object ≡ some v
  agreed-kept s' (first_test_hit w at hit) j v h = ground (arith, h, hit, safe.agreed j v)
  agreed-kept s' (first_test_miss at miss) j v h = ground (arith, h, safe.agreed j v)
  agreed-kept s' (acquire at free) j v h = ground (arith, h, safe.agreed j v)
  agreed-kept s' (second_test_hit w at hit) j v h = ground (arith, h, safe.agreed j v)
  agreed-kept s' (second_test_miss at miss) j v h = ground (arith, h, safe.agreed j v)
  agreed-kept s' (build at) j v h = ground (arith, h, at, safe.agreed j v, safe.unbuilt i)
  agreed-kept s' (raise_error at) j v h = ground (arith, h, safe.agreed j v)
  agreed-kept s' (leave w at hit) j v h = ground (arith, h, hit, safe.agreed j v)

Reached-IsSafe : (s : Process) → Reached s → IsSafe s
Reached-IsSafe s booted = record {
  exclusive = λ j h. ground (arith, h);
  unbuilt = λ j h. refl;
  once = refl;
  agreed = λ j v h. ground (arith, h);
}
Reached-IsSafe s' (moved i s s'' before move) =
    let safe = Reached-IsSafe s before in
    record {
      exclusive = exclusive-kept i s safe s' move;
      unbuilt = unbuilt-kept i s safe s' move;
      once = once-kept i s safe s' move;
      agreed = agreed-kept i s safe s' move;
    }

-- Whatever the threads do between the tests, the lock, a construction that raises and the
-- returns: the process builds at most one object, and every thread that has returned has the
-- same one.
pub built_once :
    (s : Process)
    → Reached s
    → (s.builds ≤ 1) × ((i j v w : ℕ) → s.place i ≡ returned v → s.place j ≡ returned w → v ≡ w)
built_once s reached =
    let safe = Reached-IsSafe s reached in
    (
      at_most_one s.object s.builds safe.once,
      λ i j v w h g.
          same_object (sym (safe.agreed i v (ap result_of h)) ∙ safe.agreed j w (ap result_of g)),
    )
  where
    at_most_one : (o : Option ℕ) (n : ℕ) → n ≡ existing o → n ≤ 1
    at_most_one none n e = omega (arith, e)
    at_most_one (some v) n e = omega (arith, e)

    same_object : {v w : ℕ} → some v ≡ some w → v ≡ w
    same_object h = ground (arith, h)
