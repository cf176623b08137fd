-- ===== src/Log/Effect.antt =====
-- kernel/log.c: what the loops of a commit and of a recovery do to the contents and to the disk.
use kali.Prelude.{
  ℕ, zero, suc, ◌+◌, ◌≤◌, ◌<◌, ◌≡◌, ◌≢◌, refl, ◌⊎◌, Bool, true, false, ◌||◌, List, [], ◌∷◌, ◌==◌,
  if◌then◌else◌, update, arith, ℕ_discrete, ap, ◌∙◌, sym, subst, update_self, update_ne,
}
use kali.Buffers.{Block, Disk, View, store, bwrite}
use kali.Log.{
  Log, slot, install_one, install_loop, read_blocks, write_blocks, write_head, write_log_loop,
}

-- A block that is not one of the log's own.
abbrev pub IsHome : Log → ℕ → Type 0
IsHome l b = (b < l.start) ⊎ (l.start + l.size ≤ b)

-- Whether `b` is among the `k` logged blocks from number `tail` on.
abbrev pub among : (ℕ → ℕ) → (tail k b : ℕ) → Bool
among block tail zero b = false
among block tail (suc k) b = (block tail == b) || among block (tail + 1) k b

read_blocks_before :
    (words : Block) (block : ℕ → ℕ) (i k j : ℕ) → j < i → read_blocks words block i k j ≡ block j
unfolding read_blocks
read_blocks_before words block i zero j h = refl
read_blocks_before words block i (suc k) j h =
    ground (arith, read_blocks_before words (update block i (words (i + 1))) (i + 1) k j)

pub read_blocks_lem :
    (words : Block) (block : ℕ → ℕ) (i k j : ℕ)
    → i ≤ j
    → j < i + k
    → read_blocks words block i k j ≡ words (j + 1)
unfolding read_blocks
read_blocks_lem words block i zero j lo hi = absurd (omega arith)
read_blocks_lem words block i (suc k) j lo hi = ground (
  arith,
  read_blocks_before words (update block i (words (i + 1))) (i + 1) k j,
  read_blocks_lem words (update block i (words (i + 1))) (i + 1) k j,
)

pub write_blocks_before :
    (hb : Block) (block : ℕ → ℕ) (i k j : ℕ) → j ≤ i → write_blocks hb block i k j ≡ hb j
unfolding write_blocks
write_blocks_before hb block i zero j h = refl
write_blocks_before hb block i (suc k) j h =
    ground (arith, write_blocks_before (update hb (i + 1) (block i)) block (i + 1) k j)

pub write_blocks_lem :
    (hb : Block) (block : ℕ → ℕ) (i k j : ℕ)
    → i ≤ j
    → j < i + k
    → write_blocks hb block i k (j + 1) ≡ block j
unfolding write_blocks
write_blocks_lem hb block i zero j lo hi = absurd (omega arith)
write_blocks_lem hb block i (suc k) j lo hi = ground (
  arith,
  write_blocks_before (update hb (i + 1) (block i)) block (i + 1) k (j + 1),
  write_blocks_lem (update hb (i + 1) (block i)) block (i + 1) k j,
)

-- A predicate on disks that holds wherever a crash can stop.
abbrev pub All : (Disk → Type 0) → List Disk → Type 0
All P [] = Unit {0}
All P (d ∷ ds) = P d × All P ds

module _ (l : Log) where
  -- The logged blocks are home blocks, and the log has room for them.
  pub record IsLogged : Type 0 where
    pub home : (i : ℕ) → i < l.lh.n → IsHome l (l.lh.block i)
    pub room : l.lh.n < l.size

  -- Outside the slots from `tail` on nothing changes, in the contents or on the disk.
  pub write_log_outside :
      (tail k : ℕ) (v : View) (b : ℕ)
      → (b < slot l tail) ⊎ (slot l tail + k ≤ b)
      → ((write_log_loop l tail k v).contents b ≡ v.contents b)
        × ((write_log_loop l tail k v).disk b ≡ v.disk b)
  unfolding write_log_loop
  write_log_outside tail zero v b h = (refl, refl)
  write_log_outside tail (suc k) v b h =
      let to = slot l tail in
      let v' = bwrite to (store to (v.contents (l.lh.block tail)) v) in
      ground (arith, write_log_outside (tail + 1) k v' b (omega arith))

  -- Each slot ends up with the contents of the block that is logged there.
  pub write_log_inside :
      (tail k : ℕ) (v : View) (j : ℕ)
      → IsLogged
      → tail + k ≤ l.lh.n
      → tail ≤ j
      → j < tail + k
      → ((write_log_loop l tail k v).contents (slot l j) ≡ v.contents (l.lh.block j))
        × ((write_log_loop l tail k v).disk (slot l j) ≡ v.contents (l.lh.block j))
  unfolding write_log_loop
  write_log_inside tail zero v j w fits lo hi = absurd (omega arith)
  write_log_inside tail (suc k) v j w fits lo hi =
      let to = slot l tail in
      let v' = bwrite to (store to (v.contents (l.lh.block tail)) v) in
      elim (ℕ_discrete j tail) [
        | yes here ↦ rw here (ground (arith, write_log_outside (tail + 1) k v' to (omega arith)))
        | no later ↦ ground (
          arith,
          w.home j (omega arith),
          w.room,
          write_log_inside (tail + 1) k v' j w (omega arith) (omega arith) (omega arith),
        )
      ]

  -- A property of disks that the writes to the slots keep holds at each of them.
  pub write_log_history :
      (P : Disk → Type 0)
      → ((d : Disk) (j : ℕ) (x : Block) → j < l.lh.n → P d → P (update d (slot l j) x))
      → (tail k : ℕ) (v : View) → tail + k ≤ l.lh.n
      → P v.disk
      → All P v.history
      → P (write_log_loop l tail k v).disk × All P (write_log_loop l tail k v).history
  unfolding write_log_loop
  write_log_history P keep tail zero v fits p h = (p, h)
  write_log_history P keep tail (suc k) v fits p h =
      let to = slot l tail in
      let x = v.contents (l.lh.block tail) in
      let v' = bwrite to (store to x v) in
      let p' : P v'.disk = keep v.disk tail (v'.contents to) (omega arith) p in
      write_log_history P keep (tail + 1) k v' (omega arith) p' (p', h)

  install_one_lem :
      (r : Bool) (tail : ℕ) (v : View)
      → let x = v.contents (slot l tail) in
        let d = update v.disk (l.lh.block tail) x in
        ((install_one r l tail v).contents ≡ update v.contents (l.lh.block tail) x)
        × ((install_one r l tail v).disk ≡ d)
        × ((install_one r l tail v).history ≡ d ∷ v.history)
  unfolding install_one
  install_one_lem r tail v = both r
    where
      dst : ℕ
      dst = l.lh.block tail

      x : Block
      x = v.contents (slot l tail)

      same : update v.contents dst x dst ≡ x
      same = update_self v.contents dst x

      both :
          (r : Bool)
          → ((install_one r l tail v).contents ≡ update v.contents dst x)
            × ((install_one r l tail v).disk ≡ update v.disk dst x)
            × ((install_one r l tail v).history ≡ update v.disk dst x ∷ v.history)
      both true =
          (refl, ap (update v.disk dst) same, ap (λ y. update v.disk dst y ∷ v.history) same)
      both false =
          (refl, ap (update v.disk dst) same, ap (λ y. update v.disk dst y ∷ v.history) same)

  -- After one round the slots that are still to be installed are as before.
  install_one_holds :
      (r : Bool) (x : Disk) (tail k : ℕ) (v : View)
      → IsLogged
      → tail + suc k ≤ l.lh.n
      → ((j : ℕ) → tail ≤ j → j < tail + suc k → v.contents (slot l j) ≡ x (l.lh.block j))
      → (j : ℕ) → tail + 1 ≤ j
      → j < tail + 1 + k
      → (install_one r l tail v).contents (slot l j) ≡ x (l.lh.block j)
  install_one_holds r x tail k v w fits holds j lo hi =
      ap (λ f. f (slot l j)) (install_one_lem r tail v).0
      ∙ ground (arith, w.home tail (omega arith), w.room, holds j (omega arith) (omega arith))

  -- Where each slot holds what `x` says of its block, an installation gives just the logged blocks
  -- the contents in `x`, in the buffers and on the disk.
  pub install_lem :
      (r : Bool) (x : Disk) (tail k : ℕ) (v : View) (b : ℕ)
      → IsLogged
      → tail + k ≤ l.lh.n
      → ((j : ℕ) → tail ≤ j → j < tail + k → v.contents (slot l j) ≡ x (l.lh.block j))
      → ((install_loop r l tail k v).contents b
          ≡ (if among l.lh.block tail k b then x b else v.contents b))
        × ((install_loop r l tail k v).disk b
            ≡ (if among l.lh.block tail k b then x b else v.disk b))
  unfolding install_loop
  install_lem r x tail zero v b w fits holds = (refl, refl)
  install_lem r x tail (suc k) v b w fits holds =
      let v' = install_one r l tail v in
      let one = install_one_lem r tail v in
      ground (
        arith,
        ap (λ f. f b) one.0,
        ap (λ f. f b) one.1,
        holds tail (omega arith) (omega arith),
        install_lem r x (tail + 1) k v' b w (omega arith)
            (install_one_holds r x tail k v w fits holds),
      )

  pub install_history :
      (P Q : Disk → Type 0) (r : Bool) (x : Disk)
      → ((d : Disk) → P d → Q d)
      → ((d : Disk) (j : ℕ) → j < l.lh.n → P d → P (update d (l.lh.block j) (x (l.lh.block j))))
      → (tail k : ℕ) (v : View) → IsLogged
      → tail + k ≤ l.lh.n
      → ((j : ℕ) → tail ≤ j → j < tail + k → v.contents (slot l j) ≡ x (l.lh.block j))
      → P v.disk
      → All Q v.history
      → P (install_loop r l tail k v).disk × All Q (install_loop r l tail k v).history
  unfolding install_loop
  install_history P Q r x seen keep tail zero v w fits holds p h = (p, h)
  install_history P Q r x seen keep tail (suc k) v w fits holds p h =
      let v' = install_one r l tail v in
      let (_, on_disk, after) = install_one_lem r tail v in
      let x' : v.contents (slot l tail) ≡ x (l.lh.block tail) =
        holds tail (omega arith) (omega arith) in
      let p' : P v'.disk =
        subst P (sym (on_disk ∙ ap (update v.disk (l.lh.block tail)) x'))
          (keep v.disk tail (omega arith) p) in
      install_history P Q r x seen keep (tail + 1) k v' w (omega arith)
        (install_one_holds r x tail k v w fits holds) p'
        (subst (All Q) (sym after) (seen _ (subst P on_disk p'), h))

-- What `write_head` leaves: the header block, and all else as before.
pub write_head_lem :
    (l : Log) (v : View)
    → ((write_head l v).disk l.start 0 ≡ l.lh.n)
      × ((j : ℕ) → j < l.lh.n → (write_head l v).disk l.start (j + 1) ≡ l.lh.block j)
      × ((b : ℕ) → b ≢ l.start → (write_head l v).disk b ≡ v.disk b)
      × ((b : ℕ) → b ≢ l.start → (write_head l v).contents b ≡ v.contents b)
      × ((write_head l v).history ≡ (write_head l v).disk ∷ v.history)
unfolding write_head
write_head_lem l v = (
  ap (λ f. f 0) (at_start ∙ stored)
      ∙ write_blocks_before hb l.lh.block 0 l.lh.n 0 (omega arith)
      ∙ update_self (v.contents l.start) 0 l.lh.n,
  λ j h.
      ap (λ f. f (j + 1)) (at_start ∙ stored)
      ∙ write_blocks_lem hb l.lh.block 0 l.lh.n j (omega arith) (omega arith),
  λ b h. update_ne v.disk l.start b _ (λ e. h (sym e)),
  λ b h. update_ne v.contents l.start b _ (λ e. h (sym e)),
  refl,
)
  where
    hb : Block
    hb = update (v.contents l.start) 0 l.lh.n

    header : Block
    header = write_blocks hb l.lh.block 0 l.lh.n

    stored : update v.contents l.start header l.start ≡ header
    stored = update_self v.contents l.start header

    at_start :
        update v.disk l.start (update v.contents l.start header l.start) l.start
        ≡ update v.contents l.start header l.start
    at_start = update_self v.disk l.start _
