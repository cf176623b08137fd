-- ===== src/Proc/System.antt =====
-- kernel/proc.c: the steps that processes and CPUs take on the process table, each under its locks.
-- The kernel's calls of sleep but that of wait are on objects that are no processes.
use kali.Prelude.{ℕ, ◌≡◌, ◌≢◌, ◌<◌, Bool, true, Option, ℤ, update}
use kali.Proc.{
  Proc, Table, unused, used, runnable, running, Channel, at, nproc, claimed, freed, is_unused,
  wakeup, exit_locked, wait_round, sleep_start, sleep_end, yielded, switch_to, kill, setkilled,
}

-- Two rows agree in what the table's functions compare; the rest is private to the process.
pub record SamePlace (p p' : Proc) : Type 0 where
  pub state : p'.state ≡ p.state
  pub chan : p'.chan ≡ p.chan
  pub parent : p'.parent ≡ p.parent

-- `init` is the index of initproc.
module _ (init : ℕ) where
  pub data Step (ps : Table) : Table → Type 0 where
    -- allocproc takes a row, and it or fork gives it back on an error
    claims :
        (i pid : ℕ)
        → i < nproc
        → is_unused (ps i).state ≡ true
        → Step ps (update ps i (claimed pid (ps i)))
    gives_back : (i : ℕ) → (ps i).state ≡ used → Step ps (update ps i (freed (ps i)))
    -- the end of fork, and of userinit
    adopts :
        (i me : ℕ)
        → (ps i).state ≡ used
        → (ps me).state ≡ running
        → Step ps (update ps i (record (ps i) { parent = Option.some me }))
    starts :
        (i : ℕ) → (ps i).state ≡ used → Step ps (update ps i (record (ps i) { state = runnable }))
    exits :
        (me : ℕ) (status : ℤ)
        → me < nproc
        → me ≢ init
        → (ps me).state ≡ running
        → Step ps (exit_locked init me status ps)
    waits_once :
        (me : ℕ) (copied : Bool)
        → me < nproc
        → (ps me).state ≡ running
        → Step ps (wait_round copied me ps).1
    switches : (i : ℕ) → (ps i).state ≡ runnable → Step ps (switch_to i ps)
    yields : (me : ℕ) → (ps me).state ≡ running → Step ps (yielded me ps)
    sleeps_at : (me object : ℕ) → (ps me).state ≡ running → Step ps (sleep_start me (at object) ps)
    returns_from_sleep : (me : ℕ) → (ps me).state ≡ running → Step ps (sleep_end me ps)
    wakes : (me : Option ℕ) (chan : Option Channel) → Step ps (wakeup me chan ps)
    kills : (pid : ℕ) → Step ps (kill pid ps).1
    sets_killed : (i : ℕ) → Step ps (setkilled i ps)
    changes_private : (i : ℕ) (p : Proc) → SamePlace (ps i) p → Step ps (update ps i p)

  pub data Reach : Table → Type 0 where
    boots : (ps : Table) → ((i : ℕ) → (ps i).state ≡ unused) → Reach ps
    later : {ps ps' : Table} → Reach ps → Step ps ps' → Reach ps'
