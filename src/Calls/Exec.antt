-- ===== src/Calls/Exec.antt =====
-- kernel/sysfile.c: sys_exec. `path_buf`, `uarg_at` and `ustack` are the addresses of local variables of
-- sys_exec and exec; `argv` is the list of its entries up to the first 0.
use kali.Prelude.{
  ℕ, zero, suc, ◌+◌, ◌*◌, Bool, true, false, List, [], ◌∷◌, ◌==◌, if◌then◌else◌, ℤ, pos, negsuc, M,
  pure, gets, ◌>>=◌, ◌>>◌,
}
use kali.Strings.{Memory}
use kali.Kalloc.{pgsize, load_le}
use kali.Vm.{failed, alloc_page, free_page}
use kali.Proc.Lifecycle.{World, on_mem}
use kali.Calls.{fail}
use kali.Calls.Args.{argaddr, argstr, fetchaddr, fetchstr}
use kali.Exec.{maxarg, exec}

-- MAXPATH
abbrev pub maxpath : ℕ
maxpath = 128

-- Whether the loop comes to the end of the arguments, and the pages that it has.
abbrev pub Fetched : Type 0
Fetched = Bool × List ℕ

abbrev pub with_page : ℕ → Fetched → Fetched
with_page page f = (f.0, page ∷ f.1)

module _ (me uargv uarg_at : ℕ) where
  -- A round whose argument is at the user's address `uarg`.
  pub fetch_string : (uarg : ℕ) → (next : M World Fetched) → M World Fetched
  fetch_string uarg next = do
    page ← on_mem alloc_page
    let filled = fetchstr me uarg page pgsize >>= λ r.
          if failed r then pure (false, page ∷ []) else next >>= λ f. pure (with_page page f) in
        if page == 0 then pure (false, []) else filled

  -- The loop of sys_exec from the argument `i` on.
  pub fetch_args : (rounds i : ℕ) → M World Fetched
  fetch_args zero i = pure (false, [])
  fetch_args (suc rounds) i = do
    r ← fetchaddr me (uargv + 8 * i) uarg_at
    uarg ← gets (λ s. load_le s.files.kmem.mem uarg_at 8)
    let next = fetch_string uarg (fetch_args rounds (i + 1)) in
        if failed r then pure (false, []) else if uarg == 0 then pure (true, []) else next

pub free_args : (end : ℕ) → List ℕ → M World (Unit {0})
free_args end [] = pure tt
free_args end (page ∷ pages) = do on_mem (free_page end page); free_args end pages

-- The characters of a string of length `n`.
pub text_at : Memory → (a n : ℕ) → List ℕ
text_at m a zero = []
text_at m a (suc n) = m a ∷ text_at m (a + 1) n

abbrev pub length_of : ℤ → ℕ
length_of (pos n) = n
length_of (negsuc k) = 0

module _ (end trampoline me ustack path_buf uarg_at : ℕ) where
  pub with_args : (path : List ℕ) → Fetched → M World ℤ
  with_args path (false, pages) = do free_args end pages; fail
  with_args path (true, pages) = do
    ret ← exec end trampoline me ustack path pages
    free_args end pages
    pure ret

  pub sys_exec : M World ℤ
  sys_exec = do
    uargv ← argaddr me 1
    n ← argstr me 0 path_buf maxpath
    path ← gets (λ s. text_at s.files.kmem.mem path_buf (length_of n))
    if failed n then fail else fetch_args me uargv uarg_at maxarg 0 >>= with_args path
