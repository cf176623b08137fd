-- ===== src/Sleep/Tests.antt =====
-- kernel/sleeplock.c: process 1 has the lock, process 2 sleeps.
use kali.Prelude.{◌≡◌, refl, inr, update}
use kali.Sleep.{
  Sleeplock, initsleeplock, acquire_turn, has_lock, dozing, trying, outside, System, idle, call,
  sleep, take, Reach, start, then_step,
}
use kali.Sleep.Progress.{IsFair, Reach-IsFair, Reach-progress}

abbrev held : Sleeplock
held = record { locked = 1; pid = 1 }

abbrev one_sleeps : System
one_sleeps = record {
  lk = held;
  doing = update (update (update (update (λ p. outside) 1 trying) 1 has_lock) 2 trying) 2 dozing;
}

one_sleeps-Reach : Reach idle one_sleeps
unfolding acquire_turn initsleeplock
one_sleeps-Reach =
    then_step
      (then_step (then_step (then_step start (call 1 refl)) (take 1 held refl refl)) (call 2 refl))
      (sleep 2 refl refl)

Reach-IsFair_example : IsFair one_sleeps
Reach-IsFair_example = Reach-IsFair one_sleeps-Reach

Reach-progress_example : (t : System) × Reach one_sleeps t × (t.doing 2 ≡ has_lock)
Reach-progress_example = Reach-progress 2 one_sleeps-Reach (inr refl)
