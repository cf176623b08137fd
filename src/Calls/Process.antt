-- ===== src/Calls/Process.antt =====
-- kernel/sysproc.c: the calls on processes, with the arguments that argint and argaddr fetch for the process `me`.
use kali.Prelude.{
  ℕ, ◌+◌, ◌-◌, ◌%◌, ◌^◌, Bool, some, ltb, if◌then◌else◌, ℤ, pos, negsuc, M, pure, gets, ◌>>=◌,
}
use kali.Vm.{failed}
use kali.Proc
use kali.Proc.{Outcome, returns, sleeps}
use kali.Proc.Lifecycle.{World, this_proc}
use kali.Proc.Fork.{fork, wait, exit, growproc}
use kali.Calls.Args.{argint, argaddr}

pub sys_exit : (end me : ℕ) → M World (Unit {0})
sys_exit end me = do n ← argint me 0; exit end me n

pub sys_getpid : (me : ℕ) → M World ℕ
sys_getpid me = gets (λ s. (s.table me).pid)

pub sys_fork : (end trampoline forkret me : ℕ) → M World ℤ
sys_fork end trampoline forkret me = fork end trampoline forkret me

-- A round of wait; `status` are the addresses of the exit statuses.
pub sys_wait : (end : ℕ) → (status : ℕ → ℕ) → (me : ℕ) → M World Outcome
sys_wait end status me = do addr ← argaddr me 0; wait end status me addr

pub sys_sbrk : (end me : ℕ) → M World ℤ
sys_sbrk end me = do
  n ← argint me 0
  p ← this_proc me
  r ← growproc end me n
  pure (if failed r then negsuc 0 else pos p.sz)

-- `n < 0 ? 0 : n`
abbrev pub at_least_zero : ℤ → ℕ
at_least_zero (pos n) = n
at_least_zero (negsuc k) = 0

-- A turn of the loop of sys_sleep, at time `ticks`, for a call from `ticks0` on.
pub sleep_turn : (killed : Bool) → (ticks ticks0 n : ℕ) → Outcome
sleep_turn killed ticks ticks0 n =
    if ltb ((ticks + (2 ^ 32 - ticks0)) % 2 ^ 32) n
    then if killed then returns (negsuc 0) else sleeps
    else returns (pos 0)

pub sys_sleep : (me ticks ticks0 : ℕ) → M World Outcome
sys_sleep me ticks ticks0 = do
  n ← argint me 0
  killed ← gets (λ s. Proc.killed me s.table)
  pure (sleep_turn killed ticks ticks0 (at_least_zero n))

-- An argument that is negative is no pid.
pub sys_kill : (me : ℕ) → M World ℤ
sys_kill me = do
  n ← argint me 0
  elim n [
    | negsuc k ↦ pure (negsuc 0)
    | pos pid ↦ λ s. let (r, table) = Proc.kill pid s.table in some (r, record s { table = table })
  ]
