-- ===== src/Virtio/Owned.antt =====
-- kernel/virtio_disk.c: every step keeps the descriptors owned.
use kali.Prelude.{
  ℕ, zero, suc, ◌≡◌, ◌<◌, ◌⊎◌, inl, inr, sym, subst, ap, ◌∙◌, Bool, true, Option, none, some, List,
  ◌∷◌, ◌++◌, ◌==◌, Bool-cases, >>=-some, ◌%◌, ◌^◌,
}
use mathlib.Core.Option.{some-injective}
use kali.Virtio.{
  Virtio, num, Idx, submit, submitted, rw_end, rw_begin, virtio_disk_intr, intr_loop, alloc3_desc,
  complete,
}
use kali.Virtio.Alloc.{claim, too_few, three, alloc3_desc_cases, IsBack}
use kali.Virtio.Chains.{AreApart, rw_end_lem, ended}
use kali.Virtio.System.{
  System, Step, begin, device, extended, interrupt, finish, In-middle, IsOwned, apart, are_taken,
  taken,
}
use kali.Virtio.Requests.{IsChain-same, finish-IsOwned, begin-IsOwned}

-- The outcomes of rw_begin.
pub data Begin (b blockno : ℕ) (write : Bool) (d : Virtio) : Type 0 where
  waits :
      (d' : Virtio)
      → rw_begin b blockno write d ≡ some (none, d')
      → IsBack d d'
      → (i j : ℕ) × ((q : ℕ) → q < num → d.free q ≡ true → (q ≡ i) ⊎ (q ≡ j))
      → Begin b blockno write d
  sent :
      (x : Idx)
      → (x.0 < num) × (x.1 < num) × (x.2 < num)
      → (d.free (x.0) ≡ true) × (d.free (x.1) ≡ true) × (d.free (x.2) ≡ true)
      → AreApart x
      → rw_begin b blockno write d
        ≡ some (some x, submit b blockno write x (claim x.2 (claim x.1 (claim x.0 d))))
      → Begin b blockno write d

-- From any state of the disk, virtio_disk_rw either has a chain of three different descriptors that were free
-- and sends the request, or it waits; then what is free and the descriptors in use are as they were, and
-- at most two descriptors were free.
pub rw_begin_cases : (b blockno : ℕ) (write : Bool) (d : Virtio) → Begin b blockno write d
unfolding rw_begin
rw_begin_cases b blockno write d = elim (alloc3_desc_cases d) [
  | too_few d' i j e back few ↦
      waits d' (>>=-some alloc3_desc (submitted b blockno write) e) back (i, j, few)
  | three i j k low free (ij, ik, jk) e ↦
      sent (i, j, k) low free (record { first_data = ij; first_last = ik; data_last = jk })
        (>>=-some alloc3_desc (submitted b blockno write) e)
]

-- virtio_disk_intr leaves the descriptors alone.
intr_loop-kept :
    (rounds : ℕ) (ids : ℕ → ℕ) (used : ℕ) (d d' : Virtio)
    → intr_loop rounds ids used d ≡ some (tt, d')
    → (d'.free ≡ d.free) × (d'.desc ≡ d.desc)
unfolding intr_loop
intr_loop-kept zero ids used d d' e = cc
intr_loop-kept (suc rounds) ids used d d' e = elim (Bool-cases (d.used_idx == used)) [
  | inl done ↦
      let same = some-injective (tt, d) (tt, d') (rw done at e) in
      (ap (λ r. r.1.free) (sym same), ap (λ r. r.1.desc) (sym same))
  | inr more ↦ elim (Bool-cases (d.status (ids (d.used_idx % num)) == 0)) [
    | inl good ↦
        intr_loop-kept rounds ids used (complete (ids (d.used_idx % num)) d) d'
          (rw good at (rw more at e))
    | inr bad ↦ let stops = rw bad at (rw more at e) in cc
  ]
]

virtio_disk_intr-kept :
    (ids : ℕ → ℕ) (used : ℕ) (d d' : Virtio)
    → virtio_disk_intr ids used d ≡ some (tt, d')
    → (d'.free ≡ d.free) × (d'.desc ≡ d.desc)
unfolding virtio_disk_intr
virtio_disk_intr-kept ids used d d' e = intr_loop-kept (2 ^ 16) ids used d d' e

same-IsOwned : {rs : List Idx} (d d' : Virtio) → IsBack d d' → IsOwned d rs → IsOwned d' rs
same-IsOwned d d' back o = record {
  one = λ q low. rw (back.free q) (o.one q low);
  inside = o.inside;
  chained = λ y i. IsChain-same y (λ q stands. back.desc q (taken o i q stands)) (o.chained y i);
}

rw_begin-IsOwned :
    (b blockno : ℕ) (write : Bool) (r : Option Idx) (d d' : Virtio) (rs : List Idx)
    → IsOwned d rs
    → rw_begin b blockno write d ≡ some (r, d')
    → IsOwned d' (extended rs r)
rw_begin-IsOwned b blockno write r d d' rs o e = elim (rw_begin_cases b blockno write d) [
  | waits d'' e' back few ↦
      subst (λ p. IsOwned p.1 (extended rs p.0)) (some-injective (none, d'') (r, d') (sym e' ∙ e))
        (same-IsOwned d d'' back o)
  | sent x low free a e' ↦
      subst (λ p. IsOwned p.1 (extended rs p.0))
        (some-injective (some x, submit b blockno write x (claim x.2 (claim x.1 (claim x.0 d))))
          (r, d') (sym e' ∙ e))
        (begin-IsOwned b blockno write x d rs o low free a)
]

rw_end-IsOwned :
    (b : ℕ) (x : Idx) (d d' : Virtio) (before after : List Idx)
    → IsOwned d (before ++ (x ∷ after))
    → rw_end b x d ≡ some (true, d')
    → IsOwned d' (before ++ after)
rw_end-IsOwned b x d d' before after o e =
    let i = In-middle x before after in
    let r = rw_end_lem b x d (o.chained x i) (apart o i) (are_taken o i) in
    elim (Bool-cases (d.held b)) [
      | inl held ↦ let bad = rw held at (sym r ∙ e) in cc
      | inr done ↦
          let same = some-injective (true, ended x d) (true, d') (rw done at (sym r ∙ e)) in
          subst (λ p. IsOwned p.1 (before ++ after)) same (finish-IsOwned x d before after o)
    ]

pub Step-IsOwned : {s t : System} → Step s t → IsOwned s.disk s.requests → IsOwned t.disk t.requests
Step-IsOwned (begin b blockno write r d d' rs e) o = rw_begin-IsOwned b blockno write r d d' rs o e
Step-IsOwned (device status d rs) o = record { one = o.one; inside = o.inside; chained = o.chained }
Step-IsOwned (interrupt ids used d d' rs e) o =
    let (free, desc) = virtio_disk_intr-kept ids used d d' e in
    same-IsOwned d d' (record { free = λ q. ap (λ f. f q) free; desc = λ q h. ap (λ f. f q) desc })
      o
Step-IsOwned (finish b x d d' before after e) o = rw_end-IsOwned b x d d' before after o e
