-- ===== src/Bio/Tests.antt =====
-- kernel/bio.c: the buffer cache theorems at small caches.
use kali.Prelude.{ℕ, ◌+◌, ◌≡◌, refl, true, some, [], ◌∷◌, arith}
use kali.Buffers.{Block}
use kali.Bio.{
  Buf, Cache, blank, get_buf, on_buf, bget, acquiresleep, fill, bread, got, find_cached,
  find_unused,
}
use kali.Bio.Contents.{IsWell}
use kali.Bio.Reads.{IsRead, bread_lem}

abbrev disk : ℕ → ℕ → Block
disk d x = λ k. d + x + k

-- Block 7 of device 1, dirty, in the hands of process 5.
abbrev held : Buf
held = record {
  id = 0;
  dev = 1;
  blockno = 7;
  valid = true;
  refcnt = 2;
  owner = some 5;
  words = λ k. 100;
}

abbrev small : Cache
small = record { bufs = held ∷ blank 1 ∷ []; disk = disk }

small-IsWell : IsWell small
small-IsWell = record {
  addresses = λ i. ground arith;
  keys = λ d x ne. ground arith;
  clean = λ d x. (λ key idle. absurd (omega arith), (λ key idle. refl, tt));
}

-- Process 4 reads block 9 into the buffer at 1.
abbrev read_block9 : Cache
read_block9 = record {
  bufs =
      held
      ∷ record (blank 1) {
        dev = 1;
        blockno = 9;
        valid = true;
        refcnt = 1;
        owner = some 4;
        words = disk 1 9;
      }
      ∷ [];
  disk = disk;
}

read_runs : bread 4 1 9 small ≡ got 1 read_block9
unfolding bread bget find_cached find_unused on_buf acquiresleep get_buf fill
read_runs = refl

bread_lem_example : IsRead 4 1 9 1 small read_block9
bread_lem_example =
    bread_lem 4 1 9 1 small read_block9 (λ e. absurd (omega arith)) small-IsWell
      (omega arith, (omega arith, tt)) read_runs

at_held : get_buf 0 small.bufs ≡ some held
unfolding get_buf
at_held = refl
