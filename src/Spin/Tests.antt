-- ===== src/Spin/Tests.antt =====
-- kernel/spinlock.c: one CPU takes the lock while another spins, and the theorems at that state.
use kali.Prelude.{ℕ, ◌≡◌, ◌≢◌, refl, true, Option, arith}
use kali.Spin.{acquire_start, release_start, test_and_set, acquire_end}
use kali.Spin.System.{State, Step, Reach, inside, spinning, boots, later}
use kali.Spin.Exclusion.{mutual_exclusion, Reach-ChecksPass}

-- CPU 0 is inside, CPU 1 spins.
contended : (s : State) × Reach s × (s.pc 0 ≡ inside) × (s.pc 1 ≡ spinning)
unfolding acquire_start test_and_set acquire_end
contended = (
  _,
  later
      (later
        (later
          (later (later (boots (λ i. true)) (Step.starts 0 refl refl)) (Step.starts 1 refl refl))
          (Step.wins 0 refl refl))
        (Step.spins 1 refl (λ e. absurd (omega arith))))
      (Step.enters 0 refl),
  refl,
  refl,
)

mutual_exclusion_example : ◌≡◌ {A = ℕ} 0 0
unfolding contended
mutual_exclusion_example = mutual_exclusion 0 0 contended.1 refl refl

Reach-ChecksPass_example : release_start contended.0.lock 0 ≢ Option.none
unfolding contended
Reach-ChecksPass_example = Reach-ChecksPass 0 contended.1
