-- ===== src/Virtio/Interrupts.antt =====
-- kernel/virtio_disk.c: the interrupts on a used ring with new entries.
use kali.Prelude.{
  ◌⊎◌, inl, inr, ℕ, zero, suc, ◌+◌, ◌%◌, ◌^◌, ◌≡◌, ◌≢◌, ◌<◌, refl, ◌∙◌, true, false, some, ◌==◌,
  arith, update_self, update_ne, ℕ_discrete,
}
use kali.Virtio.{Virtio, num, complete, intr_loop, virtio_disk_intr}

-- The place of the entry `k` behind index `at`.
abbrev pub place : (at k : ℕ) → ℕ
place at k = (at + k) % 2 ^ 16 % num

-- The `n` new entries are served.
pub record IsServed (ids : ℕ → ℕ) (n : ℕ) (d d' : Virtio) : Type 0 where
  pub at_end : d'.used_idx ≡ (d.used_idx + n) % 2 ^ 16
  pub served : (k : ℕ) → k < n → d'.held (d.info (ids (place d.used_idx k))) ≡ false
  pub never_held : (b : ℕ) → (d'.held b ≡ false) ⊎ (d'.held b ≡ d.held b)
  pub others :
      (b : ℕ) → ((k : ℕ) → k < n → d.info (ids (place d.used_idx k)) ≢ b) → d'.held b ≡ d.held b

next_place : (at k : ℕ) → place ((at + 1) % 2 ^ 16) k ≡ place at (suc k)
next_place at k = omega arith

module _ (ids : ℕ → ℕ) (n : ℕ) (d d' : Virtio) where
  abbrev id : ℕ
  id = ids (d.used_idx % num)

  module _ (low : d.used_idx < 2 ^ 16) (s : IsServed ids n (complete id d) d') where
    served_more : (k : ℕ) → k < suc n → d'.held (d.info (ids (place d.used_idx k))) ≡ false
    served_more zero lt =
        let first : place d.used_idx 0 ≡ d.used_idx % num = omega arith in
        rw first (elim (s.never_held (d.info id)) [
          | inl done ↦ done
          | inr same ↦ same ∙ update_self d.held (d.info id) false
        ])
    served_more (suc k) lt = rw (← next_place d.used_idx k) (s.served k (omega arith))

    IsServed-first : IsServed ids (suc n) d d'
    IsServed-first = record {
      at_end = omega (arith, s.at_end);
      served = served_more;
      never_held = λ b. elim (s.never_held b) [
        | inl done ↦ inl done
        | inr same ↦ elim (ℕ_discrete (d.info id) b) [
          | yes here ↦ inl (same ∙ ground (arith, here))
          | no other ↦ inr (same ∙ update_ne d.held (d.info id) b false other)
        ]
      ];
      others = λ b none.
          s.others b (λ k lt. rw (next_place d.used_idx k) (none (suc k) (omega arith)))
          ∙ update_ne d.held (d.info id) b false (
              let first : place d.used_idx 0 ≡ d.used_idx % num = omega arith in
              rw (← first) (none 0 (omega arith)));
    }

intr_loop_lem :
    (rounds n : ℕ) (ids : ℕ → ℕ) (used : ℕ) (d : Virtio)
    → n < rounds
    → n < 2 ^ 16
    → d.used_idx < 2 ^ 16
    → used ≡ (d.used_idx + n) % 2 ^ 16
    → ((k : ℕ) → k < n → d.status (ids (place d.used_idx k)) ≡ 0)
    → (d' : Virtio) × (intr_loop rounds ids used d ≡ some (tt, d')) × IsServed ids n d d'
unfolding intr_loop
intr_loop_lem zero n ids used d fuel small low e good = absurd (omega arith)
intr_loop_lem (suc rounds) zero ids used d fuel small low e good =
    let done : (d.used_idx == used) ≡ true = ground arith in
    (
      d,
      rw done refl,
      record {
        at_end = omega arith;
        served = λ k lt. absurd (omega arith);
        never_held = λ b. inr refl;
        others = λ b h. refl;
      },
    )
intr_loop_lem (suc rounds) (suc n) ids used d fuel small low e good =
    let more : (d.used_idx == used) ≡ false = ground arith in
    let first : d.used_idx % num ≡ place d.used_idx 0 = omega arith in
    let fine : d.status (ids (d.used_idx % num)) ≡ 0 = rw first (good 0 (omega arith)) in
    let d'' = complete (ids (d.used_idx % num)) d in
    let (d', r, s) =
      intr_loop_lem rounds n ids used d'' (omega arith) (omega arith) (omega arith) (omega arith)
        (λ k lt. rw (next_place d.used_idx k) (good (suc k) (omega arith))) in
    (d', rw (more, fine) r, IsServed-first ids n d d' low s)

-- Where the device has entered `n` requests, less than 2 ^ 16, into the used ring since the last interrupt,
-- all with status 0, virtio_disk_intr returns: it has come to the end of the entries, the buffers of those
-- requests are not held any more, and every other buffer is as it was.
pub virtio_disk_intr_lem :
    (n : ℕ) (ids : ℕ → ℕ) (used : ℕ) (d : Virtio)
    → n < 2 ^ 16
    → d.used_idx < 2 ^ 16
    → used ≡ (d.used_idx + n) % 2 ^ 16
    → ((k : ℕ) → k < n → d.status (ids (place d.used_idx k)) ≡ 0)
    → (d' : Virtio) × (virtio_disk_intr ids used d ≡ some (tt, d')) × IsServed ids n d d'
unfolding virtio_disk_intr
virtio_disk_intr_lem n ids used d small low e good =
    intr_loop_lem (2 ^ 16) n ids used d small small low e good
