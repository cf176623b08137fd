-- ===== src/Buffers.antt =====
-- What the buffer cache of kernel/bio.c is to its clients, for the one device of the file system:
-- the contents that a `bread` of a block returns, the disk under it, and the pins. A buffer that
-- is not pinned may be recycled at any time; its contents are then those of the disk.
use kali.Prelude.{ℕ, ◌+◌, ◌-◌, List, ◌∷◌, update}

-- The data of a block, as its 32-bit words.
abbrev pub Block : Type 0
Block = ℕ → ℕ

abbrev pub Disk : Type 0
Disk = ℕ → Block

pub record View : Type 0 where
  pub contents : Disk  -- what `bread` returns
  pub disk : Disk
  pub pins : ℕ → ℕ  -- calls of `bpin` less calls of `bunpin`
  pub history : List Disk  -- the disk after each write, newest first: where a crash can stop

-- A buffer's data replaced, as by `memmove(b->data, ..., BSIZE)`.
abbrev pub store : ℕ → Block → View → View
store b x v = record v { contents = update v.contents b x }

-- One block goes to the disk, whole or not at all.
abbrev pub bwrite : ℕ → View → View
bwrite b v = record v {
  disk = update v.disk b (v.contents b);
  history = update v.disk b (v.contents b) ∷ v.history;
}

abbrev pub bpin : ℕ → View → View
bpin b v = record v { pins = update v.pins b (v.pins b + 1) }

abbrev pub bunpin : ℕ → View → View
bunpin b v = record v { pins = update v.pins b (v.pins b - 1) }
