-- ===== src/Virtio/Safety.antt =====
-- kernel/virtio_disk.c: what holds of every disk that the steps reach from one whose descriptors are free, as
-- virtio_disk_init leaves them.
use kali.Prelude.{ℕ, ◌≡◌, refl, true, false, ◌||◌, some, [], ◌==◌, if◌then◌else◌, arith}
use kali.Virtio.{Virtio, Idx, rw_end}
use kali.Virtio.Chains.{ended, rw_end_lem}
use kali.Virtio.System.{System, Reach, start, then_step, In, IsOwned, apart, are_taken}
use kali.Virtio.Owned.{Step-IsOwned}

abbrev pub AllFree : Virtio → Type 0
AllFree d = (q : ℕ) → d.free q ≡ true

abbrev pub idle : Virtio → System
idle d = record { disk = d; requests = [] }

-- From a disk with all descriptors free, any sequence of requests, interrupts and writes of the device keeps
-- this: each of the eight descriptors is either free or part of exactly one request under way, and the three
-- descriptors of each such request are linked to the chain that was formatted.
pub Reach-IsOwned :
    {d : Virtio} {s : System} → AllFree d → Reach (idle d) s → IsOwned s.disk s.requests
Reach-IsOwned free start = record {
  one = λ q low. rw (free q) refl;
  inside = λ q high. refl;
  chained = λ y i. elim i [ ];
}
Reach-IsOwned free (then_step r st) = Step-IsOwned st (Reach-IsOwned free r)

-- In each such state, a request under way ends without a panic of free_desc: while its buffer is held, it
-- sleeps on, and after that it makes free its own three descriptors and no other.
pub Reach-rw_end :
    {d : Virtio} {s : System} (b : ℕ) (x : Idx)
    → AllFree d
    → Reach (idle d) s
    → In x s.requests
    → (rw_end b x s.disk
        ≡ (if s.disk.held b then some (false, s.disk) else some (true, ended x s.disk)))
      × ((q : ℕ) → (ended x s.disk).free q ≡ (x.2 == q || x.1 == q || x.0 == q || s.disk.free q))
Reach-rw_end {d} {s} b x free r i =
    let o = Reach-IsOwned free r in
    (rw_end_lem b x s.disk (o.chained x i) (apart o i) (are_taken o i), λ q. ground arith)
