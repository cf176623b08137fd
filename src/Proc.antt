-- ===== src/Proc.antt =====
-- kernel/proc.c: the process table. A process is known by its index in `proc`, and a channel that is
-- the address of a process by that index too. A function is what it does between the locks that it
-- takes: p->lock is held through each access of a row, and wait_lock through the parts of exit and
-- wait.
pub mod Waits
pub mod System
pub mod Exits
pub mod Wakeups
pub mod Reaping
pub mod Lifecycle
pub mod Fork
mod Tests
use kali.Prelude.{
  ℕ, zero, suc, ◌+◌, ◌-◌, ◌*◌, Bool, true, false, not, ◌&&◌, ◌||◌, Option, none, some, ◌==◌,
  if◌then◌else◌, update, ℤ, pos, negsuc,
}

abbrev pub nproc : ℕ
nproc = 64

-- `enum procstate`
pub data State : Type 0 where
  unused : State
  used : State
  sleeping : State
  runnable : State
  running : State
  zombie : State

abbrev pub is_unused : State → Bool
is_unused unused = true
is_unused used = false
is_unused sleeping = false
is_unused runnable = false
is_unused running = false
is_unused zombie = false

abbrev pub is_sleeping : State → Bool
is_sleeping unused = false
is_sleeping used = false
is_sleeping sleeping = true
is_sleeping runnable = false
is_sleeping running = false
is_sleeping zombie = false

abbrev pub is_runnable : State → Bool
is_runnable unused = false
is_runnable used = false
is_runnable sleeping = false
is_runnable runnable = true
is_runnable running = false
is_runnable zombie = false

abbrev pub is_zombie : State → Bool
is_zombie unused = false
is_zombie used = false
is_zombie sleeping = false
is_zombie runnable = false
is_zombie running = false
is_zombie zombie = true

-- What a process sleeps on: a process, or another object by its address.
pub data Channel : Type 0 where
  at_proc : ℕ → Channel
  at : ℕ → Channel

-- Equality of pointers, of which `none` is the null one.
abbrev pub same_chan : Option Channel → Option Channel → Bool
same_chan none none = true
same_chan none (some d) = false
same_chan (some c) none = false
same_chan (some (at_proc i)) (some (at_proc j)) = i == j
same_chan (some (at_proc i)) (some (at j)) = false
same_chan (some (at i)) (some (at_proc j)) = false
same_chan (some (at i)) (some (at j)) = i == j

abbrev pub same_proc : Option ℕ → ℕ → Bool
same_proc none q = false
same_proc (some p) q = p == q

abbrev pub chan_of : Option ℕ → Option Channel
chan_of none = none
chan_of (some p) = some (at_proc p)

-- `struct proc`, less its spinlock; of the context the two registers that allocproc sets.
pub record Proc : Type 0 where
  pub state : State
  pub chan : Option Channel
  pub killed : Bool
  pub xstate : ℤ
  pub pid : ℕ
  pub parent : Option ℕ
  pub kstack : ℕ
  pub sz : ℕ
  pub pagetable : ℕ
  pub trapframe : ℕ
  pub context : ℕ × ℕ
  pub ofile : ℕ → Option ℕ
  pub cwd : Option ℕ
  pub name : ℕ → ℕ

abbrev pub Table : Type 0
Table = ℕ → Proc

-- The fields that allocproc sets where it finds a row, for the pid that allocpid gives.
abbrev pub claimed : (pid : ℕ) → Proc → Proc
claimed pid p = record p { pid = pid; state = used }

-- The fields that freeproc sets.
abbrev pub freed : Proc → Proc
freed p = record p {
  trapframe = 0;
  pagetable = 0;
  sz = 0;
  pid = 0;
  parent = none;
  name = update p.name 0 0;
  chan = none;
  killed = false;
  xstate = pos 0;
  state = unused;
}

-- The first row that is not in use.
pub find_unused : Table → (i rounds : ℕ) → Option ℕ
find_unused ps i zero = none
find_unused ps i (suc rounds) =
    let rest = find_unused ps (i + 1) rounds in if is_unused (ps i).state then some i else rest

-- `me` is the process that runs on the CPU.
abbrev pub sleeps_on : (me : Option ℕ) → Option Channel → (i : ℕ) → Proc → Bool
sleeps_on me chan i p = not (same_proc me i) && is_sleeping p.state && same_chan p.chan chan

abbrev pub woken : Proc → Proc
woken p = record p { state = runnable }

unfoldable pub wakeup_loop : (me : Option ℕ) → Option Channel → (i rounds : ℕ) → Table → Table
wakeup_loop me chan i zero ps = ps
wakeup_loop me chan i (suc rounds) ps =
    wakeup_loop me chan (i + 1) rounds
      (if sleeps_on me chan i (ps i) then update ps i (woken (ps i)) else ps)

unfoldable pub wakeup : (me : Option ℕ) → Option Channel → Table → Table
unfolding wakeup_loop
wakeup me chan ps = wakeup_loop me chan 0 nproc ps

abbrev pub reparented : (init i : ℕ) → Table → Table
reparented init i ps = update ps i (record (ps i) { parent = some init })

unfoldable pub reparent_loop : (init me i rounds : ℕ) → Table → Table
reparent_loop init me i zero ps = ps
reparent_loop init me i (suc rounds) ps = reparent_loop init me (i + 1) rounds (
    if same_proc (ps i).parent me
    then wakeup (some me) (some (at_proc init)) (reparented init i ps)
    else ps)

-- The caller `me` gives its children to `init`.
unfoldable pub reparent : (init me : ℕ) → Table → Table
unfolding reparent_loop
reparent init me ps = reparent_loop init me 0 nproc ps

abbrev pub exited : (status : ℤ) → Proc → Proc
exited status p = record p { xstate = status; state = zombie }

abbrev pub wake_parent : (me : ℕ) → Table → Table
wake_parent me ps = wakeup (some me) (chan_of (ps me).parent) ps

-- exit while it holds wait_lock.
unfoldable pub exit_locked : (init me : ℕ) → (status : ℤ) → Table → Table
unfolding reparent wakeup
exit_locked init me status ps =
    let ps' = wake_parent me (reparent init me ps) in update ps' me (exited status (ps' me))

-- What the scan of wait finds: an exited child, or whether there are children at all.
pub data Scan : Type 0 where
  exited_child : ℕ → Scan
  no_exit : (havekids : Bool) → Scan

unfoldable pub scan : Table → (me i rounds : ℕ) → (havekids : Bool) → Scan
scan ps me i zero havekids = no_exit havekids
scan ps me i (suc rounds) havekids =
    let rest = scan ps me (i + 1) rounds (havekids || same_proc (ps i).parent me) in
    if same_proc (ps i).parent me && is_zombie (ps i).state then exited_child i else rest

pub data Outcome : Type 0 where
  returns : ℤ → Outcome
  sleeps : Outcome

abbrev pub asleep : Option Channel → Proc → Proc
asleep chan p = record p { chan = chan; state = sleeping }

-- The rest of a round of wait.
unfoldable pub wait_end : (copied : Bool) → (me : ℕ) → Table → Scan → Outcome × Table
wait_end copied me ps (exited_child c) =
    if copied
    then (returns (pos (ps c).pid), update ps c (freed (ps c)))
    else (returns (negsuc 0), ps)
wait_end copied me ps (no_exit havekids) =
    if not havekids || (ps me).killed
    then (returns (negsuc 0), ps)
    else (sleeps, update ps me (asleep (some (at_proc me)) (ps me)))

-- A round of wait, from its entry or the return of its sleep to its exit or its next sleep; `copied`
-- says whether no copy of the exit status is asked for, or the copy succeeds.
unfoldable pub wait_round : (copied : Bool) → (me : ℕ) → Table → Outcome × Table
unfolding scan wait_end
wait_round copied me ps = wait_end copied me ps (scan ps me 0 nproc false)

-- sleep on `chan` up to sched, and after it.
abbrev pub sleep_start : (me : ℕ) → Channel → Table → Table
sleep_start me chan ps = update ps me (asleep (some chan) (ps me))

abbrev pub sleep_end : (me : ℕ) → Table → Table
sleep_end me ps = update ps me (record (ps me) { chan = none })

abbrev pub yielded : (me : ℕ) → Table → Table
yielded me ps = update ps me (woken (ps me))

-- The scheduler switches to process `i`.
abbrev pub switch_to : (i : ℕ) → Table → Table
switch_to i ps = update ps i (record (ps i) { state = running })

abbrev pub killed_row : Proc → Proc
killed_row p = record p { killed = true; state = if is_sleeping p.state then runnable else p.state }

unfoldable pub kill_loop : (pid i rounds : ℕ) → Table → ℤ × Table
kill_loop pid i zero ps = (negsuc 0, ps)
kill_loop pid i (suc rounds) ps =
    let rest = kill_loop pid (i + 1) rounds ps in
    if (ps i).pid == pid then (pos 0, update ps i (killed_row (ps i))) else rest

unfoldable pub kill : (pid : ℕ) → Table → ℤ × Table
unfolding kill_loop
kill pid ps = kill_loop pid 0 nproc ps

abbrev pub setkilled : (i : ℕ) → Table → Table
setkilled i ps = update ps i (record (ps i) { killed = true })

abbrev pub killed : (i : ℕ) → Table → Bool
killed i ps = (ps i).killed
