-- ===== src/Spin/System.antt =====
-- kernel/spinlock.c: CPUs that contend for one lock, a shared access at a time, while each may hold
-- other locks: their push_off and pop_off are moves of their own.
use kali.Prelude.{ℕ, suc, ◌+◌, ◌≡◌, ◌≢◌, Bool, false, some, update}
use kali.Spin.{
  Cpu, Spinlock, initlock, push_off, pop_off, acquire_start, test_and_set, acquire_end,
  release_start, lock_release,
}

-- Where a CPU stands with respect to the lock.
pub data Pc : Type 0 where
  outside : Pc
  spinning : Pc  -- in the loop of `acquire`
  won : Pc  -- behind the loop of `acquire`
  inside : Pc  -- between the return of `acquire` and the call of `release`
  leaving : Pc  -- before `__sync_lock_release`
  free : Pc  -- before the `pop_off` of `release`

pub record State : Type 0 where
  pub lock : Spinlock
  pub cpu : ℕ → Cpu
  pub pc : ℕ → Pc
  pub others : ℕ → ℕ  -- how many other locks the CPU holds

abbrev pub move : State → ℕ → Spinlock → Cpu → Pc → State
move s i lk c p = record {
  lock = lk;
  cpu = update s.cpu i c;
  pc = update s.pc i p;
  others = s.others;
}

pub data Step (s : State) : State → Type 0 where
  starts :
      (i : ℕ) {c : Cpu}
      → s.pc i ≡ outside
      → acquire_start s.lock i (s.cpu i) ≡ some c
      → Step s (move s i s.lock c spinning)
  spins :
      (i : ℕ)
      → s.pc i ≡ spinning
      → (test_and_set s.lock).0 ≢ 0
      → Step s (move s i (test_and_set s.lock).1 (s.cpu i) spinning)
  wins :
      (i : ℕ)
      → s.pc i ≡ spinning
      → (test_and_set s.lock).0 ≡ 0
      → Step s (move s i (test_and_set s.lock).1 (s.cpu i) won)
  enters : (i : ℕ) → s.pc i ≡ won → Step s (move s i (acquire_end s.lock i) (s.cpu i) inside)
  releases :
      (i : ℕ) {lk : Spinlock}
      → s.pc i ≡ inside
      → release_start s.lock i ≡ some lk
      → Step s (move s i lk (s.cpu i) leaving)
  unlocks : (i : ℕ) → s.pc i ≡ leaving → Step s (move s i (lock_release s.lock) (s.cpu i) free)
  leaves :
      (i : ℕ) {c : Cpu}
      → s.pc i ≡ free
      → pop_off (s.cpu i) ≡ some c
      → Step s (move s i s.lock c outside)
  takes_other :
      (i : ℕ)
      → Step s (record {
        lock = s.lock;
        cpu = update s.cpu i (push_off (s.cpu i));
        pc = s.pc;
        others = update s.others i (s.others i + 1);
      })
  drops_other :
      (i n : ℕ) {c : Cpu}
      → s.others i ≡ suc n
      → pop_off (s.cpu i) ≡ some c
      → Step s (record {
        lock = s.lock;
        cpu = update s.cpu i c;
        pc = s.pc;
        others = update s.others i n;
      })
  -- `intr_on` and `intr_off`, where no lock is held.
  sets_intr :
      (i : ℕ) (on : Bool)
      → (s.cpu i).noff ≡ 0
      → Step s (record s {
        cpu =
            update s.cpu i (record { noff = (s.cpu i).noff; intena = (s.cpu i).intena; intr = on });
      })

pub data Reach : State → Type 0 where
  boots :
      (intr : ℕ → Bool)
      → Reach (record {
        lock = initlock;
        cpu = λ i. record { noff = 0; intena = false; intr = intr i };
        pc = λ i. outside;
        others = λ i. 0;
      })
  later : {s t : State} → Reach s → Step s t → Reach t
