-- ===== src/Pipe.antt =====
-- kernel/pipe.c. `pi->lock` is held from the entry of a function, or the return of its `sleep`, to
-- its exit or its next `sleep`: such a run is one function here. What the kernel provides in a run
-- are parameters: `copyin` reads a byte of the caller's memory, `copyout` says whether it stores one,
-- and `killed` whether the caller is killed when it asks at byte `i`.
pub mod Ring
pub mod Runs
pub mod Fifo
mod Tests
use kali.Prelude.{
  ℕ, zero, suc, ◌+◌, ◌%◌, ◌^◌, Bool, true, false, not, ◌&&◌, ◌||◌, Option, none, some, List, [],
  ◌∷◌, ◌==◌, if◌then◌else◌, update, ℤ, pos, negsuc, pos_part,
}

abbrev pub pipesize : ℕ
pipesize = 512

-- `uint` addition
abbrev pub add32 : ℕ → ℕ → ℕ
add32 a b = (a + b) % 2 ^ 32

-- `struct pipe`, less its spinlock.
pub record Pipe : Type 0 where
  pub bytes : ℕ → ℕ  -- `data`
  pub nread : ℕ
  pub nwrite : ℕ
  pub readopen : Bool
  pub writeopen : Bool

-- The pipe that pipealloc sets up, with whatever the page held.
abbrev pub fresh : (ℕ → ℕ) → Pipe
fresh page = record { bytes = page; nread = 0; nwrite = 0; readopen = true; writeopen = true }

pub data Outcome : Type 0 where
  returns : ℤ → Outcome
  sleeps : (i : ℕ) → Outcome  -- at byte `i`, with the lock released

-- What a run leaves: how it ends, whether it wakes the other side, the pipe, the bytes that it
-- moved between the pipe and the caller's memory, and those that it took out and did not deliver.
pub record Run : Type 0 where
  pub outcome : Outcome
  pub wakes : Bool
  pub pipe : Pipe
  pub moved : List ℕ
  pub lost : List ℕ

abbrev pub stop : Outcome → Bool → Pipe → Run
stop o w pi = record { outcome = o; wakes = w; pipe = pi; moved = []; lost = [] }

abbrev pub is_full : Pipe → Bool
is_full pi = pi.nwrite == add32 pi.nread pipesize

abbrev pub is_empty : Pipe → Bool
is_empty pi = pi.nread == pi.nwrite

-- `pi->data[pi->nwrite++ % PIPESIZE] = ch`
abbrev pub put : Pipe → ℕ → Pipe
put pi ch = record pi {
  bytes = update pi.bytes (pi.nwrite % pipesize) ch;
  nwrite = add32 pi.nwrite 1;
}

-- `pi->data[pi->nread++ % PIPESIZE]`
abbrev pub front : Pipe → ℕ
front pi = pi.bytes (pi.nread % pipesize)

abbrev pub get : Pipe → Pipe
get pi = record pi { nread = add32 pi.nread 1 }

module _ (copyin : ℕ → Option ℕ) (killed : ℕ → Bool) (addr : ℕ) where
  -- The loop of pipewrite from byte `i`, with `rounds` bytes to go.
  pub pipewrite_loop : (i rounds : ℕ) → Pipe → Run
  pipewrite_loop i zero pi = stop (returns (pos i)) true pi
  pipewrite_loop i (suc k) pi =
      if not pi.readopen || killed i
      then stop (returns (negsuc 0)) false pi
      else if is_full pi
      then stop (sleeps i) true pi
      else elim (copyin (addr + i)) [
        | none ↦ stop (returns (pos i)) true pi
        | some ch ↦
            let rest = pipewrite_loop (i + 1) k (put pi ch) in
            record rest { moved = ch ∷ rest.moved }
      ]

  -- A call of pipewrite up to its first sleep.
  pub pipewrite : (n : ℤ) → Pipe → Run
  unfolding pipewrite_loop
  pipewrite n pi = pipewrite_loop 0 (pos_part n) pi

module _ (copyout : ℕ → ℕ → Bool) (killed : Bool) (addr : ℕ) where
  pub piperead_loop : (i rounds : ℕ) → Pipe → Run
  piperead_loop i zero pi = stop (returns (pos i)) true pi
  piperead_loop i (suc k) pi =
      let rest = piperead_loop (i + 1) k (get pi) in
      if is_empty pi
      then stop (returns (pos i)) true pi
      else if not (copyout (addr + i) (front pi))
      then record (stop (returns (pos i)) true (get pi)) { lost = front pi ∷ [] }
      else record rest { moved = front pi ∷ rest.moved }

  -- A run of piperead from its entry, or from the return of its sleep.
  pub piperead : (n : ℤ) → Pipe → Run
  unfolding piperead_loop
  piperead n pi =
      if is_empty pi && pi.writeopen
      then if killed then stop (returns (negsuc 0)) false pi else stop (sleeps 0) false pi
      else piperead_loop 0 (pos_part n) pi

-- The pipe after pipeclose, and whether its page is freed. It wakes the side that is left.
pub pipeclose : Pipe → (writable : Bool) → Pipe × Bool
pipeclose pi writable =
    let pi' =
      if writable then record pi { writeopen = false } else record pi { readopen = false } in
    (pi', not pi'.readopen && not pi'.writeopen)
