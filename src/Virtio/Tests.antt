-- ===== src/Virtio/Tests.antt =====
-- kernel/virtio_disk.c: a write of block 9 from buffer 1, and its interrupt.
use kali.Prelude.{ℕ, ◌≡◌, refl, ◌||◌, true, false, some, [], ◌∷◌, ◌==◌, if◌then◌else◌, arith}
use kali.Virtio.{
  Virtio, Idx, zero_desc, find_desc, alloc_desc, alloc3_desc, submit, rw_begin, rw_end,
  virtio_disk_intr,
}
use kali.Virtio.Chains.{ended}
use kali.Virtio.System.{System, Reach, start, then_step, begin, here, IsOwned}
use kali.Virtio.Owned.{Begin, rw_begin_cases}
use kali.Virtio.Safety.{AllFree, idle, Reach-IsOwned, Reach-rw_end}
use kali.Virtio.Interrupts.{IsServed, virtio_disk_intr_lem}

abbrev boot : Virtio
boot = record {
  desc = λ q. zero_desc;
  ring = λ q. 0;
  avail = 0;
  free = λ q. true;
  used_idx = 0;
  info = λ q. 0;
  status = λ q. 0;
  ops = λ q. record { type_code = 0; reserved = 0; sector = 0 };
  held = λ b. false;
  wakeups = [];
}

boot-AllFree : AllFree boot
boot-AllFree q = refl

abbrev first_three : Idx
first_three = (0, 1, 2)

abbrev taken_three : Virtio
taken_three = record boot {
  free = λ q. if 2 == q then false else if 1 == q then false else if 0 == q then false else true;
}

abbrev sent_disk : Virtio
sent_disk = submit 1 9 true first_three taken_three

sent_lem : rw_begin 1 9 true boot ≡ some (some first_three, sent_disk)
unfolding rw_begin alloc3_desc alloc_desc find_desc
sent_lem = refl

-- The sector, and the links of the chain.
sent_sector : (sent_disk.ops 0).sector ≡ 18
unfolding submit
sent_sector = refl

abbrev under_way : System
under_way = record { disk = sent_disk; requests = first_three ∷ [] }

under_way-Reach : Reach (idle boot) under_way
under_way-Reach = then_step start (begin 1 9 true (some first_three) boot sent_disk [] sent_lem)

Reach-IsOwned_example : IsOwned sent_disk (first_three ∷ [])
Reach-IsOwned_example = Reach-IsOwned boot-AllFree under_way-Reach

Reach-rw_end_example :
    (rw_end 1 first_three sent_disk ≡ (
      if sent_disk.held 1
      then some (false, sent_disk)
      else some (true, ended first_three sent_disk)))
    × ((q : ℕ)
        → (ended first_three sent_disk).free q ≡ (2 == q || 1 == q || 0 == q || sent_disk.free q))
Reach-rw_end_example = Reach-rw_end 1 first_three boot-AllFree under_way-Reach here

rw_begin_cases_example : Begin 3 4 false sent_disk
rw_begin_cases_example = rw_begin_cases 3 4 false sent_disk

-- The device has written the status.
abbrev answered : Virtio
answered = record sent_disk { status = λ q. 0 }

virtio_disk_intr_lem_example :
    (d' : Virtio) × (virtio_disk_intr (λ k. 0) 1 answered ≡ some (tt, d'))
    × IsServed (λ k. 0) 1 answered d'
virtio_disk_intr_lem_example =
    virtio_disk_intr_lem 1 (λ k. 0) 1 answered (omega arith) (unfold submit in omega arith)
      (unfold submit in refl) (λ k lt. refl)
