-- ===== src/Store/Singleton/Progress.antt =====
-- The double-checked lock (app/core/store.py `get_store`, app/services/llm_service.py `_get_client`): what
-- every thread can still reach.
use assignment_cloud_instanc.Prelude.{
  ℕ, ◌≡◌, refl, ap, ◌∙◌, true, false, none, some, ◌==◌, ==→eq, ==_self, arith, Bool-cases,
  Option-cases, inl, inr,
}
use assignment_cloud_instanc.Prelude.Threads.{put}
use assignment_cloud_instanc.Store.Singleton.{
  Place, start, waiting, inside, building, leaving, returned, Process, Move, first_test_hit,
  first_test_miss, acquire, second_test_hit, second_test_miss, build, raise_error, leave, Reached,
  booted, moved, holds,
}

-- Moves of any threads, one after the other.
pub data Moves (s : Process) : Process → Type 0 where
  stay : Moves s s
  go : (i : ℕ) (t u : Process) → Moves s t → Move i t u → Moves s u

-- The lock is held by a thread behind it, and a thread that is about to leave has an object to return.
record IsLive (s : Process) : Type 0 where
  pub behind : (j : ℕ) → s.holder ≡ some j → holds (s.place j) ≡ true
  pub built : (j : ℕ) → s.place j ≡ leaving → (v : ℕ) × (s.object ≡ some v)

module _ (i : ℕ) (s : Process) (live : IsLive s) where
  behind-kept :
      (s' : Process) → Move i s s' → (j : ℕ) → s'.holder ≡ some j → holds (s'.place j) ≡ true
  behind-kept s' (first_test_hit v at hit) j h = ground (arith, h, at, live.behind j)
  behind-kept s' (first_test_miss at miss) j h = ground (arith, h, at, live.behind j)
  behind-kept s' (acquire at free) j h = ground (arith, h)
  behind-kept s' (second_test_hit v at hit) j h = ground (arith, h, at, live.behind j)
  behind-kept s' (second_test_miss at miss) j h = ground (arith, h, at, live.behind j)
  behind-kept s' (build at) j h = ground (arith, h, at, live.behind j)
  behind-kept s' (raise_error at) j h = ground (arith, h)
  behind-kept s' (leave v at hit) j h = ground (arith, h)

  built-kept :
      (s' : Process) → Move i s s' → (j : ℕ) → s'.place j ≡ leaving → (v : ℕ) × (s'.object ≡ some v)
  built-kept s' (first_test_hit v at hit) j h = (v, hit)
  built-kept s' (first_test_miss at miss) j h = live.built j (ground (arith, h))
  built-kept s' (acquire at free) j h = live.built j (ground (arith, h))
  built-kept s' (second_test_hit v at hit) j h = (v, hit)
  built-kept s' (second_test_miss at miss) j h = live.built j (ground (arith, h))
  built-kept s' (build at) j h = (s.builds, refl)
  built-kept s' (raise_error at) j h = live.built j (ground (arith, h))
  built-kept s' (leave v at hit) j h = (v, hit)

Reached-IsLive : (s : Process) → Reached s → IsLive s
Reached-IsLive s booted = record {
  behind = λ j h. absurd (ground (arith, h));
  built = λ j h. absurd (ground (arith, h));
}
Reached-IsLive s' (moved i s s'' before move) =
    let live = Reached-IsLive s before in
    record { behind = behind-kept i s live s' move; built = built-kept i s live s' move }

cons : (i : ℕ) (s t u : Process) → Move i s t → Moves t u → Moves s u
cons i s t u move stay = go i s t stay move
cons i s t u move (go j v w moves last) = go j v u (cons i s t v move moves) last

append : (s t u : Process) → Moves s t → Moves t u → Moves s u
append s t u first stay = first
append s t u first (go i v w moves last) = go i v u (append s t v first moves) last

-- The moves of `i` alone that bring it from behind the lock to its return.
record Freed (i : ℕ) (s : Process) : Type 0 where
  pub last : Process
  pub path : Moves s last
  pub value : ℕ
  pub back : last.place i ≡ returned value
  pub free : last.holder ≡ none
  pub others : (k : ℕ) → (k == i) ≡ false → last.place k ≡ s.place k

module _ (i : ℕ) where
  Freed-before :
      (s t : Process)
      → Move i s t
      → ((k : ℕ) → (k == i) ≡ false → t.place k ≡ s.place k)
      → Freed i t
      → Freed i s
  Freed-before s t move same f = record {
    last = f.last;
    path = cons i s t f.last move f.path;
    value = f.value;
    back = f.back;
    free = f.free;
    others = λ k other. f.others k other ∙ same k other;
  }

  Freed-leaving : (s : Process) (v : ℕ) → s.place i ≡ leaving → s.object ≡ some v → Freed i s
  Freed-leaving s v at hit = record {
    last = record s { holder = none; place = put i (returned v) s.place };
    path = go i s _ stay (leave v at hit);
    value = v;
    back = rw ==_self refl;
    free = refl;
    others = λ k other. rw other refl;
  }

  Freed-building : (s : Process) → s.place i ≡ building → Freed i s
  Freed-building s at =
      Freed-before s _ (build at) (λ k other. rw other refl)
        (Freed-leaving _ s.builds (rw ==_self refl) refl)

  Freed-inside : (s : Process) → s.place i ≡ inside → Freed i s
  Freed-inside s at = elim (Option-cases s.object) [
    | inl miss ↦
        Freed-before s _ (second_test_miss at miss) (λ k other. rw other refl)
          (Freed-building _ (rw ==_self refl))
    | inr (v, hit) ↦
        Freed-before s _ (second_test_hit v at hit) (λ k other. rw other refl)
          (Freed-leaving _ v (rw ==_self refl) hit)
  ]

  Freed-holds : (s : Process) → IsLive s → (p : Place) → s.place i ≡ p → holds p ≡ true → Freed i s
  Freed-holds s live inside at h = Freed-inside s at
  Freed-holds s live building at h = Freed-building s at
  Freed-holds s live leaving at h = let (v, hit) = live.built i at in Freed-leaving s v at hit
  Freed-holds s live start at h = absurd (ground (arith, h))
  Freed-holds s live waiting at h = absurd (ground (arith, h))
  Freed-holds s live (returned v) at h = absurd (ground (arith, h))

-- Some moves after which the thread has returned.
pub record Returns (i : ℕ) (s : Process) : Type 0 where
  pub last : Process
  pub path : Moves s last
  pub value : ℕ
  pub back : last.place i ≡ returned value

module _ (i : ℕ) where
  Returns-Freed : (s : Process) → Freed i s → Returns i s
  Returns-Freed s f = record { last = f.last; path = f.path; value = f.value; back = f.back }

  Returns-before : (j : ℕ) (s t : Process) → Move j s t → Returns i t → Returns i s
  Returns-before j s t move r = record {
    last = r.last;
    path = cons j s t r.last move r.path;
    value = r.value;
    back = r.back;
  }

  -- A thread that gets the free lock returns.
  Returns-free : (s : Process) → s.place i ≡ waiting → s.holder ≡ none → Returns i s
  Returns-free s at free =
      Returns-before i s _ (acquire at free) (Returns-Freed _ (Freed-inside i _ (rw ==_self refl)))

  -- Otherwise the holder of the lock returns first.
  Returns-waiting : (s : Process) → IsLive s → s.place i ≡ waiting → Returns i s
  Returns-waiting s live at = elim (Option-cases s.holder) [
    | inl free ↦ Returns-free s at free
    | inr (j, held) ↦
        let behind = live.behind j held in
        let f = Freed-holds j s live (s.place j) refl behind in
        elim (Bool-cases (i == j)) [
          | inl same ↦ absurd (ground (arith, behind, ap holds at, ap s.place (==→eq i j same)))
          | inr other ↦
              let rest = Returns-free f.last (f.others i other ∙ at) f.free in
              record {
                last = rest.last;
                path = append s f.last rest.last f.path rest.path;
                value = rest.value;
                back = rest.back;
              }
        ]
  ]

  Returns-place : (s : Process) → Reached s → (p : Place) → s.place i ≡ p → Returns i s
  Returns-place s reached start at = elim (Option-cases s.object) [
    | inl miss ↦
        let t : Process = record s { place = put i waiting s.place } in
        let move : Move i s t = first_test_miss at miss in
        Returns-before i s t move
          (Returns-waiting t (Reached-IsLive t (moved i s t reached move)) (rw ==_self refl))
    | inr (v, hit) ↦ record {
      last = record s { place = put i (returned v) s.place };
      path = go i s _ stay (first_test_hit v at hit);
      value = v;
      back = rw ==_self refl;
    }
  ]
  Returns-place s reached waiting at = Returns-waiting s (Reached-IsLive s reached) at
  Returns-place s reached (returned v) at = record { last = s; path = stay; value = v; back = at }
  Returns-place s reached p at = elim (Bool-cases (holds p)) [
    | inl behind ↦ Returns-Freed s (Freed-holds i s (Reached-IsLive s reached) p at behind)
    | inr other ↦ absurd (ground (arith, other))
  ]

-- From every state that the threads can reach, each of them can still return the object: some
-- moves lead there, so the lock is never held for good, whatever constructions raised before.
pub Reached-Returns : (s : Process) → Reached s → (i : ℕ) → Returns i s
Reached-Returns s reached i = Returns-place i s reached (s.place i) refl
