-- ===== src/Calls/Args.antt =====
-- kernel/syscall.c: the arguments of a system call, from the trapframe and the memory of the process
-- `me`, and the dispatch. Buffers are addresses of the kernel.
use kali.Prelude.{
  ℕ, ◌+◌, ◌-◌, ◌*◌, ◌%◌, ◌^◌, Bool, false, ◌&&◌, ◌||◌, Option, none, some, ltb, leb, if◌then◌else◌,
  ℤ, pos, negsuc, M, pure, panic, gets, ◌>>=◌,
}
use kali.Strings.{strlen}
use kali.Kalloc.{load_le}
use kali.Vm.{failed}
use kali.Vm.Copy.{copyin, copyinstr}
use kali.Proc.Lifecycle.{World, on_mem, this_proc}
use kali.Proc.Fork.{set_register}
use kali.Calls.{fail}

-- The 64 bits at `offset` of the trapframe.
abbrev pub register : (me offset : ℕ) → M World ℕ
register me offset = gets (λ s. load_le s.files.kmem.mem ((s.table me).trapframe + offset) 8)

-- Registers a0 to a5.
pub argraw : (me n : ℕ) → M World ℕ
argraw me n = if ltb n 6 then register me (112 + 8 * n) else panic

-- The conversion of a `uint64` to `int`.
abbrev pub as_int : ℕ → ℤ
as_int v = let w = v % 2 ^ 32 in if ltb w (2 ^ 31) then pos w else negsuc (2 ^ 32 - 1 - w)

pub argint : (me n : ℕ) → M World ℤ
argint me n = do v ← argraw me n; pure (as_int v)

pub argaddr : (me n : ℕ) → M World ℕ
argaddr me n = argraw me n

-- The 8 bytes at the user's address `addr` are copied to `ip`.
pub fetchaddr : (me addr ip : ℕ) → M World ℤ
fetchaddr me addr ip = do
  p ← this_proc me
  if leb p.sz addr || ltb p.sz ((addr + 8) % 2 ^ 64)
      then fail
      else on_mem (copyin p.pagetable ip addr 8) >>= (λ r. if failed r then fail else pure (pos 0))

-- The length of the string in `buf`, which ends within `max` bytes.
pub string_length : (buf max : ℕ) → M World ℤ
string_length buf max s = elim (strlen max s.files.kmem.mem buf) [
  | none ↦ none
  | some n ↦ some (pos n, s)
]

pub fetchstr : (me addr buf max : ℕ) → M World ℤ
fetchstr me addr buf max = do
  p ← this_proc me
  r ← on_mem (copyinstr p.pagetable buf addr max)
  if failed r then fail else string_length buf max

pub argstr : (me n buf max : ℕ) → M World ℤ
argstr me n buf max = do addr ← argaddr me n; fetchstr me addr buf max

abbrev pub is_call : ℤ → Bool
is_call (pos n) = ltb 0 n && ltb n 22
is_call (negsuc k) = false

abbrev pub call_number : ℤ → ℕ
call_number (pos n) = n
call_number (negsuc k) = 0

-- The result of a call goes to a0.
pub set_result : (me v : ℕ) → M World (Unit {0})
set_result me v = do p ← this_proc me; on_mem (set_register p.trapframe 112 v)

-- The dispatch over the array `syscalls`, without the message.
pub syscall : (syscalls : ℕ → Option (M World ℕ)) → (me : ℕ) → M World (Unit {0})
syscall syscalls me = do
  a7 ← register me 168
  if is_call (as_int a7)
      then elim (syscalls (call_number (as_int a7))) [
        | none ↦ set_result me (2 ^ 64 - 1)
        | some call ↦ call >>= set_result me
      ]
      else set_result me (2 ^ 64 - 1)
