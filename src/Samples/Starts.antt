-- ===== src/Samples/Starts.antt =====
-- The theorems at concrete inputs: the demo rows, and a thread that builds.
use assignment_cloud_instanc.Prelude.{ℕ, ◌+◌, ◌*◌, ◌≤◌, ◌≡◌, refl, arith, none, some, [], ◌∷◌}
use assignment_cloud_instanc.Prelude.Threads.{put}
use assignment_cloud_instanc.Models.{Tables}
use assignment_cloud_instanc.Config.{defaults}
use assignment_cloud_instanc.Session.{ok, request}
use assignment_cloud_instanc.Store.Singleton.{
  waiting, inside, building, leaving, returned, Process, Reached, booted, moved, first_test_miss,
  acquire, second_test_miss, build, leave, cold, built_once,
}
use assignment_cloud_instanc.Seed.{seed, previous_month}
use assignment_cloud_instanc.Seed.Sound.{seed-IsSound}
use assignment_cloud_instanc.Api.Changes.{IsSound}
use assignment_cloud_instanc.Samples.{db}
use assignment_cloud_instanc.Samples.Tokens.{kdf}

-- Thread 0 finds nothing, takes the lock, builds and returns.
abbrev after_test : Process
after_test = record cold { place = put 0 waiting cold.place }

abbrev after_lock : Process
after_lock = record after_test { holder = some 0; place = put 0 inside after_test.place }

abbrev after_second : Process
after_second = record after_lock { place = put 0 building after_lock.place }

abbrev after_build : Process
after_build = record after_second {
  object = some after_second.builds;
  builds = after_second.builds + 1;
  place = put 0 leaving after_second.place;
}

abbrev after_return : Process
after_return = record after_build { holder = none; place = put 0 (returned 0) after_build.place }

returned_once : Reached after_return
returned_once =
    moved 0 after_build after_return
      (moved 0 after_second after_build
        (moved 0 after_lock after_second
          (moved 0 after_test after_lock
            (moved 0 cold after_test booted (first_test_miss refl refl)) (acquire refl refl))
          (second_test_miss refl refl))
        (build refl))
      (leave 0 refl refl)

built_once_example :
    (after_return.builds ≤ 1)
    × ((i j v w : ℕ)
        → after_return.place i ≡ returned v
        → after_return.place j ≡ returned w
        → v ≡ w)
built_once_example = built_once after_return returned_once

abbrev no_rows : Tables
no_rows = record { members = []; clients = []; instances = []; alerts = []; cost_snapshots = [] }

no_rows-IsSound : IsSound no_rows
no_rows-IsSound = (
  record {
    members_distinct = tt;
    clients_distinct = tt;
    instances_distinct = tt;
    instances_pos = tt;
    alerts_distinct = tt;
    clients_refer = tt;
    instances_refer = tt;
    alerts_refer = tt;
    snapshots_distinct = tt;
    snapshots_refer = tt;
  },
  λ t i. ground arith,
)

seed-IsSound_example :
    let t = (request (seed db kdf defaults (λ email. 7 ∷ []) 900 901) no_rows).1 in
    IsSound t × (request (seed db kdf defaults (λ email. 8 ∷ []) 950 951) t ≡ (ok tt, t))
seed-IsSound_example =
    seed-IsSound db kdf defaults (λ email. 7 ∷ []) (λ email. 8 ∷ []) 900 901 950 951 no_rows
      no_rows-IsSound

-- From 2024-01-15.
last_month : previous_month (19_737 * 86_400_000_000) ≡ "2023-12"
unfolding previous_month
last_month = refl
