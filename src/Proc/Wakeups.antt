-- ===== src/Proc/Wakeups.antt =====
-- kernel/proc.c: no parent sleeps in wait while a child of it has exited.
use kali.Prelude.{ℕ, ◌≡◌, ◌<◌, refl, sym, ap, ◌∙◌, true, false, ◌&&◌, none, some, update}
use kali.Proc.{
  Proc, Table, unused, runnable, running, at, at_proc, nproc, same_chan, is_sleeping, is_zombie,
  claimed, woken, asleep,
}
use kali.Proc.Waits.{
  waits, left, IsTended, Calms-IsTended, update-Calms, wakeup-Calms, alive_left, never,
}
use kali.Proc.System.{SamePlace, Step, Reach, boots, later}
use kali.Proc.Exits.{exit_locked-IsTended, wait_round-IsTended, kill-Calms, freed-Calms}

private_waits : (q : ℕ) (p p' : Proc) → SamePlace p p' → waits q p' ≡ waits q p
private_waits q p p' same = rw (same.state, same.chan) refl

private_left : (q : ℕ) (p p' : Proc) → SamePlace p p' → left q p' ≡ left q p
private_left q p p' same = rw (same.state, same.parent) refl

module _ (init : ℕ) (init_inside : init < nproc) where
  -- A step after which the row is neither asleep nor that of an exited process.
  quiet :
      (q : ℕ) (ps : Table) (i : ℕ) (p : Proc)
      → is_sleeping p.state ≡ false
      → is_zombie p.state ≡ false
      → IsTended q ps
      → IsTended q (update ps i p)
  quiet q ps i p up alive = Calms-IsTended (
      update-Calms q ps i p (λ e. never (ap (λ b. b && same_chan p.chan (some (at_proc q))) up))
        (never (alive_left q p alive)))

  Step-IsTended :
      (q : ℕ) → q < nproc → {ps ps' : Table} → Step init ps ps' → IsTended q ps → IsTended q ps'
  Step-IsTended q inside {ps} (Step.claims i pid _ free) =
      quiet q ps i (claimed pid (ps i)) refl refl
  Step-IsTended q inside {ps} (Step.gives_back i is_used) = Calms-IsTended (freed-Calms q i ps)
  Step-IsTended q inside {ps} (Step.adopts i me is_used _) =
      quiet q ps i (record (ps i) { parent = some me }) (ap is_sleeping is_used)
        (ap is_zombie is_used)
  Step-IsTended q inside {ps} (Step.starts i is_used) =
      quiet q ps i (record (ps i) { state = runnable }) refl refl
  Step-IsTended q inside {ps} (Step.exits me status _ other runs) =
      exit_locked-IsTended init me q status ps other init_inside inside
  Step-IsTended q inside {ps} (Step.waits_once me copied _ runs) =
      wait_round-IsTended copied me q ps
  Step-IsTended q inside {ps} (Step.switches i ready) =
      quiet q ps i (record (ps i) { state = running }) refl refl
  Step-IsTended q inside {ps} (Step.yields me runs) = quiet q ps me (woken (ps me)) refl refl
  Step-IsTended q inside {ps} (Step.sleeps_at me object runs) = Calms-IsTended (
      update-Calms q ps me (asleep (some (at object)) (ps me)) (λ e. never refl)
        (never (alive_left q (asleep (some (at object)) (ps me)) refl)))
  Step-IsTended q inside {ps} (Step.returns_from_sleep me runs) =
      quiet q ps me (record (ps me) { chan = none }) (ap is_sleeping runs) (ap is_zombie runs)
  Step-IsTended q inside {ps} (Step.wakes me chan) = Calms-IsTended (wakeup-Calms q me chan ps)
  Step-IsTended q inside {ps} (Step.kills pid) = Calms-IsTended (kill-Calms q pid ps)
  Step-IsTended q inside {ps} (Step.sets_killed i) =
      Calms-IsTended (update-Calms q ps i (record (ps i) { killed = true }) (λ e w. w) (λ l. l))
  Step-IsTended q inside {ps} (Step.changes_private i p same) = Calms-IsTended (
      update-Calms q ps i p (λ e w. sym (private_waits q (ps i) p same) ∙ w)
        (λ l. sym (private_left q (ps i) p same) ∙ l))

  all_unused : (q : ℕ) (ps : Table) → ((i : ℕ) → (ps i).state ≡ unused) → IsTended q ps
  all_unused q ps all = record { tended = λ c inside w. alive_left q (ps c) (ap is_zombie (all c)) }

  -- In every state that the process table can reach from the boot on, by any order of the steps of
  -- processes and CPUs: while a process is asleep in wait, no child of it is a zombie. So the
  -- wakeup of an exit is not lost, whether the parent's scan of the table comes before the exit or after,
  -- and also for children that are given to init.
  pub Reach-IsTended : (q : ℕ) → q < nproc → {ps : Table} → Reach init ps → IsTended q ps
  Reach-IsTended q inside (boots ps all) = all_unused q ps all
  Reach-IsTended q inside (later r st) = Step-IsTended q inside st (Reach-IsTended q inside r)
