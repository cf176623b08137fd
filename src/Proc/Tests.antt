-- ===== src/Proc/Tests.antt =====
-- kernel/proc.c: process 0 forks process 1 and waits; process 1 exits.
use kali.Prelude.{◌≡◌, refl, none, true, false, pos, arith}
use kali.Proc.{
  Table, unused, sleeping, runnable, running, zombie, wakeup, wakeup_loop, reparent, reparent_loop,
  exit_locked, wait_round, scan, wait_end, returns, kill, kill_loop, claimed,
}
use kali.Proc.Waits.{IsTended}
use kali.Proc.System.{Step, Reach, boots, later}
use kali.Proc.Wakeups.{Reach-IsTended}

abbrev booted : Table
booted i = record {
  state = unused;
  chan = none;
  killed = false;
  xstate = pos 0;
  pid = 0;
  parent = none;
  kstack = 0;
  sz = 0;
  pagetable = 0;
  trapframe = 0;
  context = (0, 0);
  ofile = λ fd. none;
  cwd = none;
  name = λ k. 0;
}

-- Process 0 sleeps in wait, and process 1 runs.
asleep_parent : (ps : Table) × Reach 0 ps × ((ps 0).state ≡ sleeping) × ((ps 1).state ≡ running)
unfolding wait_round scan wait_end
asleep_parent = (
  _,
  later
      (later
        (later
          (later
            (later
              (later
                (later (later (boots booted (λ i. refl)) (Step.claims 0 1 (omega arith) refl))
                  (Step.starts 0 refl))
                (Step.switches 0 refl))
              (Step.claims 1 2 (omega arith) refl))
            (Step.adopts 1 0 refl refl))
          (Step.starts 1 refl))
        (Step.waits_once 0 true (omega arith) refl))
      (Step.switches 1 refl),
  refl,
  refl,
)

-- Behind the exit of process 1, process 0 can run again, and its wait returns the pid.
exited_child_runs : (ps : Table) × Reach 0 ps × ((ps 0).state ≡ runnable) × ((ps 1).state ≡ zombie)
unfolding asleep_parent exit_locked reparent_loop reparent wakeup_loop wakeup
exited_child_runs =
    (_, later asleep_parent.1 (Step.exits 1 (pos 7) (omega arith) (omega arith) refl), refl, refl)

Reach-IsTended_example : IsTended 0 exited_child_runs.0
Reach-IsTended_example = Reach-IsTended 0 (omega arith) 0 (omega arith) exited_child_runs.1

-- There it returns pid 2.
reaped : (wait_round true 0 exited_child_runs.0).0 ≡ returns (pos 2)
unfolding exited_child_runs asleep_parent exit_locked reparent_loop reparent wakeup_loop wakeup
    wait_round scan wait_end
reaped = refl

-- kill of pid 0 finds a row that is not in use and marks it, and the next process in that row keeps the mark.
killed_before_birth :
    ((kill 0 booted).0 ≡ pos 0) × ((claimed 1 ((kill 0 booted).1 0)).killed ≡ true)
unfolding kill_loop kill
killed_before_birth = (refl, refl)
