-- ===== src/Spin/Steps.antt =====
-- kernel/spinlock.c: the invariant of CPUs that contend for a lock, kept by every step.
use kali.Prelude.{ℕ, suc, ◌+◌, ◌<◌, ◌≡◌, ◌≢◌, Bool, true, false, some, update, arith}
use kali.Spin.{
  Cpu, Spinlock, push_off, pop_off, acquire_start, test_and_set, acquire_end, release_start,
  lock_release,
}
use kali.Spin.System.{
  Pc, outside, spinning, won, inside, leaving, free, State, move, Step, starts, spins, wins, enters,
  releases, unlocks, leaves, takes_other, drops_other, sets_intr,
}

-- From the swap that takes the lock to the store that frees it.
abbrev pub has_lock : Pc → Bool
has_lock outside = false
has_lock spinning = false
has_lock won = true
has_lock inside = true
has_lock leaving = true
has_lock free = false

abbrev pub is_inside : Pc → Bool
is_inside inside = true
is_inside _ = false

-- 1 between the `push_off` of `acquire` and the `pop_off` of `release`.
abbrev pub depth : Pc → ℕ
depth outside = 0
depth _ = 1

pub record IsSafe (s : State) : Type 0 where
  pub alone : (i j : ℕ) → has_lock (s.pc i) ≡ true → has_lock (s.pc j) ≡ true → i ≡ j
  pub taken : (i : ℕ) → has_lock (s.pc i) ≡ true → s.lock.locked ≢ 0
  pub owner : (i : ℕ) → is_inside (s.pc i) ≡ true → s.lock.cpu ≡ some i
  pub owned : (i : ℕ) → s.lock.cpu ≡ some i → is_inside (s.pc i) ≡ true
  pub nested : (i : ℕ) → (s.cpu i).noff ≡ s.others i + depth (s.pc i)
  pub quiet : (i : ℕ) → 0 < (s.cpu i).noff → (s.cpu i).intr ≡ false

module _ (s : State) (f : IsSafe s) where
  starts-IsSafe :
      (i : ℕ) {c : Cpu}
      → s.pc i ≡ outside
      → acquire_start s.lock i (s.cpu i) ≡ some c
      → IsSafe (move s i s.lock c spinning)
  unfolding acquire_start
  starts-IsSafe i e h = record {
    alone = λ a b x y. grind (arith, f.alone a b);
    taken = λ a x. grind (arith, f.taken a);
    owner = λ a x. grind (arith, f.owner a);
    owned = λ a x. grind (arith, f.owned a);
    nested = λ a. grind (arith, f.nested a);
    quiet = λ a x. grind (arith, f.quiet a);
  }

  spins-IsSafe :
      (i : ℕ)
      → s.pc i ≡ spinning
      → (test_and_set s.lock).0 ≢ 0
      → IsSafe (move s i (test_and_set s.lock).1 (s.cpu i) spinning)
  unfolding test_and_set
  spins-IsSafe i e h = record {
    alone = λ a b x y. grind (arith, f.alone a b);
    taken = λ a x. grind (arith, f.taken a);
    owner = λ a x. grind (arith, f.owner a);
    owned = λ a x. grind (arith, f.owned a);
    nested = λ a. grind (arith, f.nested a);
    quiet = λ a x. grind (arith, f.quiet a);
  }

  wins-IsSafe :
      (i : ℕ)
      → s.pc i ≡ spinning
      → (test_and_set s.lock).0 ≡ 0
      → IsSafe (move s i (test_and_set s.lock).1 (s.cpu i) won)
  unfolding test_and_set
  wins-IsSafe i e h = record {
    alone = λ a b x y. grind (arith, f.alone a b);
    taken = λ a x. grind (arith, f.taken a);
    owner = λ a x. grind (arith, f.owner a);
    owned = λ a x. grind (arith, f.owned a);
    nested = λ a. grind (arith, f.nested a);
    quiet = λ a x. grind (arith, f.quiet a);
  }

  enters-IsSafe : (i : ℕ) → s.pc i ≡ won → IsSafe (move s i (acquire_end s.lock i) (s.cpu i) inside)
  unfolding acquire_end
  enters-IsSafe i e = record {
    alone = λ a b x y. grind (arith, f.alone a b);
    taken = λ a x. grind (arith, f.taken a);
    owner = λ a x. grind (arith, f.owner a);
    owned = λ a x. grind (arith, f.owned a);
    nested = λ a. grind (arith, f.nested a);
    quiet = λ a x. grind (arith, f.quiet a);
  }

  releases-IsSafe :
      (i : ℕ) {lk : Spinlock}
      → s.pc i ≡ inside
      → release_start s.lock i ≡ some lk
      → IsSafe (move s i lk (s.cpu i) leaving)
  unfolding release_start
  releases-IsSafe i e h = record {
    alone = λ a b x y. grind (arith, f.alone a b);
    taken = λ a x. grind (arith, f.taken a);
    owner = λ a x. grind (arith, f.owner a);
    owned = λ a x. grind (arith, f.owned a);
    nested = λ a. grind (arith, f.nested a);
    quiet = λ a x. grind (arith, f.quiet a);
  }

  unlocks-IsSafe :
      (i : ℕ) → s.pc i ≡ leaving → IsSafe (move s i (lock_release s.lock) (s.cpu i) free)
  unfolding lock_release
  unlocks-IsSafe i e = record {
    alone = λ a b x y. grind (arith, f.alone a b);
    taken = λ a x. grind (arith, f.taken a);
    owner = λ a x. grind (arith, f.owner a);
    owned = λ a x. grind (arith, f.owned a);
    nested = λ a. grind (arith, f.nested a);
    quiet = λ a x. grind (arith, f.quiet a);
  }

  leaves-IsSafe :
      (i : ℕ) {c : Cpu}
      → s.pc i ≡ free
      → pop_off (s.cpu i) ≡ some c
      → IsSafe (move s i s.lock c outside)
  unfolding pop_off
  leaves-IsSafe i e h = record {
    alone = λ a b x y. grind (arith, f.alone a b);
    taken = λ a x. grind (arith, f.taken a);
    owner = λ a x. grind (arith, f.owner a);
    owned = λ a x. grind (arith, f.owned a);
    nested = λ a. grind (arith, f.nested a);
    quiet = λ a x. grind (arith, f.quiet a);
  }

  takes_other-IsSafe :
      (i : ℕ)
      → IsSafe (record {
        lock = s.lock;
        cpu = update s.cpu i (push_off (s.cpu i));
        pc = s.pc;
        others = update s.others i (s.others i + 1);
      })
  unfolding push_off
  takes_other-IsSafe i = record {
    alone = f.alone;
    taken = f.taken;
    owner = f.owner;
    owned = f.owned;
    nested = λ a. grind (arith, f.nested a);
    quiet = λ a x. grind (arith, f.quiet a);
  }

  drops_other-IsSafe :
      (i n : ℕ) {c : Cpu}
      → s.others i ≡ suc n
      → pop_off (s.cpu i) ≡ some c
      → IsSafe (record {
        lock = s.lock;
        cpu = update s.cpu i c;
        pc = s.pc;
        others = update s.others i n;
      })
  unfolding pop_off
  drops_other-IsSafe i n e h = record {
    alone = f.alone;
    taken = f.taken;
    owner = f.owner;
    owned = f.owned;
    nested = λ a. grind (arith, f.nested a);
    quiet = λ a x. grind (arith, f.quiet a);
  }

  sets_intr-IsSafe :
      (i : ℕ) (on : Bool)
      → (s.cpu i).noff ≡ 0
      → IsSafe (record s {
        cpu =
            update s.cpu i (record { noff = (s.cpu i).noff; intena = (s.cpu i).intena; intr = on });
      })
  sets_intr-IsSafe i on e = record {
    alone = f.alone;
    taken = f.taken;
    owner = f.owner;
    owned = f.owned;
    nested = λ a. grind (arith, f.nested a);
    quiet = λ a x. grind (arith, f.quiet a);
  }

  -- Every step keeps the invariant.
  pub Step-IsSafe : {t : State} → Step s t → IsSafe t
  Step-IsSafe (starts i e h) = starts-IsSafe i e h
  Step-IsSafe (spins i e h) = spins-IsSafe i e h
  Step-IsSafe (wins i e h) = wins-IsSafe i e h
  Step-IsSafe (enters i e) = enters-IsSafe i e
  Step-IsSafe (releases i e h) = releases-IsSafe i e h
  Step-IsSafe (unlocks i e) = unlocks-IsSafe i e
  Step-IsSafe (leaves i e h) = leaves-IsSafe i e h
  Step-IsSafe (takes_other i) = takes_other-IsSafe i
  Step-IsSafe (drops_other i n e h) = drops_other-IsSafe i n e h
  Step-IsSafe (sets_intr i on e) = sets_intr-IsSafe i on e
