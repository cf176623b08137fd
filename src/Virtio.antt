-- ===== src/Virtio.antt =====
-- kernel/virtio_disk.c: the descriptors and the requests. vdisk_lock is held from one sleep to the next.
-- The device, a separate machine, reads `desc`, `ring`, `avail` and `ops`; what it writes, the status bytes
-- and the used ring, is an argument. `wakeups` lists the calls of wakeup, the last one first.
pub mod Alloc
pub mod Chains
pub mod System
mod Requests
pub mod Owned
pub mod Safety
pub mod Interrupts
mod Tests
use Prim.Native.Nat.{bit_and, bit_or}
use kali.Log.{bsize}
use kali.Prelude.{
  ℕ, zero, suc, ◌+◌, ◌*◌, ◌/◌, ◌%◌, ◌^◌, Bool, true, false, not, Option, none, some, List, [], ◌∷◌,
  ◌==◌, leb, if◌then◌else◌, update, M, pure, panic, panic_if, gets, modify, ◌>>=◌, ◌>>◌,
}

-- NUM
abbrev pub num : ℕ
num = 8

-- The addresses that descriptors hold: ops[i], the data of buffer b, and info[i].status.
pub data Address : Type 0 where
  null : Address
  op : ℕ → Address
  contents : ℕ → Address
  state : ℕ → Address

pub record Desc : Type 0 where
  pub addr : Address
  pub len : ℕ
  pub flags : ℕ
  pub next : ℕ

-- VRING_DESC_F_NEXT
abbrev pub f_next : ℕ
f_next = 1

-- VRING_DESC_F_WRITE
abbrev pub f_write : ℕ
f_write = 2

-- `struct virtio_blk_req`
pub record BlkReq : Type 0 where
  pub type_code : ℕ
  pub reserved : ℕ
  pub sector : ℕ

pub data Sleepers : Type 0 where
  descriptors : Sleepers
  buffer : ℕ → Sleepers

-- A buffer is a number, and 0 the null pointer. `held` is its field `disk`.
pub record Virtio : Type 0 where
  pub desc : ℕ → Desc
  pub ring : ℕ → ℕ
  pub avail : ℕ
  pub free : ℕ → Bool
  pub used_idx : ℕ
  pub info : ℕ → ℕ
  pub status : ℕ → ℕ
  pub ops : ℕ → BlkReq
  pub held : ℕ → Bool
  pub wakeups : List Sleepers

-- The first free descriptor from `i` on.
pub find_desc : (free : ℕ → Bool) → (i rounds : ℕ) → Option ℕ
find_desc free i zero = none
find_desc free i (suc rounds) =
    let rest = find_desc free (i + 1) rounds in if free i then some i else rest

abbrev pub take_desc : Option ℕ → M Virtio (Option ℕ)
take_desc none = pure none
take_desc (some i) = do modify (λ d. record d { free = update d.free i false }); pure (some i)

unfoldable pub alloc_desc : M Virtio (Option ℕ)
alloc_desc = do free ← gets (λ d. d.free); take_desc (find_desc free 0 num)

abbrev pub zero_desc : Desc
zero_desc = record { addr = null; len = 0; flags = 0; next = 0 }

abbrev pub release_desc : ℕ → Virtio → Virtio
release_desc i d = record d {
  desc = update d.desc i zero_desc;
  free = update d.free i true;
  wakeups = descriptors ∷ d.wakeups;
}

unfoldable pub free_desc : ℕ → M Virtio (Unit {0})
free_desc i = do
  panic_if (leb num i)
  free ← gets (λ d. d.free)
  panic_if (free i)
  modify (release_desc i)

-- A chain is shorter than the fuel.
unfoldable pub free_chain : (fuel i : ℕ) → M Virtio (Unit {0})
free_chain zero i = panic
free_chain (suc fuel) i = do
  desc ← gets (λ d. d.desc)
  free_desc i
  let more = free_chain fuel (desc i).next in
      if bit_and (desc i).flags f_next == 0 then pure tt else more

abbrev pub Idx : Type 0
Idx = ℕ × ℕ × ℕ

-- The loop of alloc3_desc over what it has when it runs out.
unfoldable pub free_each : List ℕ → M Virtio (Unit {0})
free_each [] = pure tt
free_each (j ∷ js) = do free_desc j; free_each js

-- A round of alloc3_desc with `got` behind it.
abbrev pub or_free :
    (got : List ℕ) → (more : ℕ → M Virtio (Option Idx)) → Option ℕ → M Virtio (Option Idx)
or_free got more none = do free_each got; pure none
or_free got more (some i) = more i

unfoldable pub alloc3_desc : M Virtio (Option Idx)
alloc3_desc =
    alloc_desc
    >>= or_free [] (λ i.
      alloc_desc
      >>= or_free (i ∷ []) (λ j. alloc_desc >>= or_free (i ∷ j ∷ []) (λ k. pure (some (i, j, k)))))

-- VIRTIO_BLK_T_IN and VIRTIO_BLK_T_OUT
abbrev pub type_of : (write : Bool) → ℕ
type_of write = if write then 1 else 0

abbrev pub request_header : (blockno : ℕ) (write : Bool) → BlkReq
request_header blockno write = record {
  type_code = type_of write;
  reserved = 0;
  sector = blockno * (bsize / 512) % 2 ^ 32;
}

abbrev pub first_desc : Idx → Desc
first_desc x = record { addr = op x.0; len = 16; flags = f_next; next = x.1 }

abbrev pub data_desc : (b : ℕ) (write : Bool) → Idx → Desc
data_desc b write x = record {
  addr = contents b;
  len = bsize;
  flags = bit_or (if write then 0 else f_write) f_next;
  next = x.2;
}

abbrev pub status_desc : Idx → Desc
status_desc x = record { addr = state (x.0); len = 1; flags = f_write; next = 0 }

-- virtio_disk_rw from the formatting of the descriptors to the notification of the device.
unfoldable pub submit : (b blockno : ℕ) (write : Bool) → Idx → Virtio → Virtio
submit b blockno write x d =
    let d = record d {
      ops = update d.ops x.0 (request_header blockno write);
      desc = update d.desc x.0 (first_desc x);
    } in
    let d = record d { desc = update d.desc x.1 (data_desc b write x) } in
    let d = record d {
      status = update d.status x.0 255;
      desc = update d.desc x.2 (status_desc x);
    } in
    let d = record d { held = update d.held b true; info = update d.info x.0 b } in
    record d { ring = update d.ring (d.avail % num) x.0; avail = (d.avail + 1) % 2 ^ 16 }

abbrev pub submitted : (b blockno : ℕ) (write : Bool) → Option Idx → M Virtio (Option Idx)
submitted b blockno write none = pure none
submitted b blockno write (some x) = do modify (submit b blockno write x); pure (some x)

-- virtio_disk_rw up to its sleep: for a descriptor, `none`, after which it tries again, or for the request.
unfoldable pub rw_begin : (b blockno : ℕ) (write : Bool) → M Virtio (Option Idx)
unfolding submit
rw_begin b blockno write = alloc3_desc >>= submitted b blockno write

-- virtio_disk_rw behind its sleep for the request: `false` if it sleeps again.
unfoldable pub rw_end : (b : ℕ) → Idx → M Virtio Bool
rw_end b x = do
  held ← gets (λ d. d.held)
  let rest =
        modify (λ d. record d { info = update d.info x.0 0 })
        >> free_chain (suc num) x.0
        >> pure true in
      if held b then pure false else rest

-- The device is done with request `id`.
abbrev pub complete : (id : ℕ) → Virtio → Virtio
complete id d = record d {
  held = update d.held (d.info id) false;
  wakeups = buffer (d.info id) ∷ d.wakeups;
  used_idx = (d.used_idx + 1) % 2 ^ 16;
}

-- The loop of virtio_disk_intr: a round for each entry of the used ring.
unfoldable pub intr_loop : (rounds : ℕ) (ids : ℕ → ℕ) (used : ℕ) → M Virtio (Unit {0})
intr_loop zero ids used = panic
intr_loop (suc rounds) ids used = do
  at ← gets (λ d. d.used_idx)
  status ← gets (λ d. d.status)
  let next =
        panic_if (not (status (ids (at % num)) == 0))
        >> modify (complete (ids (at % num)))
        >> intr_loop rounds ids used in
      if at == used then pure tt else next

-- On a used ring with `ids` whose index is `used` when the loop reads it last. The index has 16 bits.
unfoldable pub virtio_disk_intr : (ids : ℕ → ℕ) (used : ℕ) → M Virtio (Unit {0})
unfolding intr_loop
virtio_disk_intr ids used = intr_loop (2 ^ 16) ids used
