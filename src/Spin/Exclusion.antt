-- ===== src/Spin/Exclusion.antt =====
-- kernel/spinlock.c: the lock excludes, no check of it panics, and interrupts are off under it.
use kali.Prelude.{ℕ, ◌≡◌, ◌≢◌, refl, true, false, none, arith}
use kali.Spin.{pop_off, acquire_start, release_start}
use kali.Spin.System.{Pc, outside, spinning, won, inside, leaving, free, State, Reach, boots, later}
use kali.Spin.Steps.{has_lock, IsSafe, Step-IsSafe}

Reach-IsSafe : {s : State} → Reach s → IsSafe s
Reach-IsSafe (boots intr) = record {
  alone = λ a b x y. cc;
  taken = λ a x. cc;
  owner = λ a x. cc;
  owned = λ a x. cc;
  nested = λ a. refl;
  quiet = λ a x. absurd (omega arith);
}
Reach-IsSafe (later {s} r st) = Step-IsSafe s (Reach-IsSafe r) st

-- Two CPUs are never between taking and freeing the lock at once.
pub mutual_exclusion :
    {s : State} (i j : ℕ) → Reach s → has_lock (s.pc i) ≡ true → has_lock (s.pc j) ≡ true → i ≡ j
mutual_exclusion i j r x y = (Reach-IsSafe r).alone i j x y

-- What the code checks at each place.
abbrev pub ChecksPass : State → ℕ → Pc → Type 0
ChecksPass s i outside = acquire_start s.lock i (s.cpu i) ≢ none
ChecksPass s i inside = release_start s.lock i ≢ none
ChecksPass s i free = pop_off (s.cpu i) ≢ none
ChecksPass s i _ = Unit {0}

checks : (s : State) (i : ℕ) (p : Pc) → IsSafe s → s.pc i ≡ p → ChecksPass s i p
unfolding acquire_start release_start pop_off
checks s i outside f e = λ h. ground (arith, f.owned i)
checks s i spinning f e = tt
checks s i won f e = tt
checks s i inside f e = λ h. ground (arith, f.owner i, f.taken i)
checks s i leaving f e = tt
checks s i free f e = λ h. ground (arith, f.nested i, f.quiet i)

-- No check panics: `acquire` never finds the lock held by its own CPU, `release` always does, and
-- the `pop_off` of `release` finds interrupts off and a push_off to undo.
pub Reach-ChecksPass : {s : State} (i : ℕ) → Reach s → ChecksPass s i (s.pc i)
Reach-ChecksPass {s} i r = checks s i (s.pc i) (Reach-IsSafe r) refl

-- From taking the lock to freeing it interrupts are off on the CPU that has it.
pub Reach-quiet : {s : State} (i : ℕ) → Reach s → has_lock (s.pc i) ≡ true → (s.cpu i).intr ≡ false
Reach-quiet {s} i r h = let f = Reach-IsSafe r in f.quiet i (ground (arith, f.nested i))
