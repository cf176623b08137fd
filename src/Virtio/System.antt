-- ===== src/Virtio/System.antt =====
-- kernel/virtio_disk.c: the disk with the requests under way, each the local `idx` of a virtio_disk_rw that
-- sleeps. Between the calls, the device writes status bytes.
use kali.Prelude.{
  ℕ, ◌+◌, ◌≡◌, ◌≤◌, ◌<◌, Bool, true, false, Option, none, some, List, [], ◌∷◌, ◌++◌, ◌==◌,
  if◌then◌else◌, arith, dec_lt,
}
use kali.Virtio.{Virtio, num, Idx, rw_end, rw_begin, virtio_disk_intr}
use kali.Virtio.Chains.{IsChain, AreApart, AreTaken}

pub record System : Type 0 where
  pub disk : Virtio
  pub requests : List Idx

-- The requests with one that was begun, unless it waits for descriptors.
abbrev pub extended : List Idx → Option Idx → List Idx
extended rs none = rs
extended rs (some x) = x ∷ rs

pub data Step : System → System → Type 0 where
  begin :
      (b blockno : ℕ) (write : Bool) (r : Option Idx) (d d' : Virtio) (rs : List Idx)
      → rw_begin b blockno write d ≡ some (r, d')
      → Step (record { disk = d; requests = rs }) (record { disk = d'; requests = extended rs r })
  device :
      (status : ℕ → ℕ) (d : Virtio) (rs : List Idx)
      → Step
          (record { disk = d; requests = rs })
          (record { disk = record d { status = status }; requests = rs })
  interrupt :
      (ids : ℕ → ℕ) (used : ℕ) (d d' : Virtio) (rs : List Idx)
      → virtio_disk_intr ids used d ≡ some (tt, d')
      → Step (record { disk = d; requests = rs }) (record { disk = d'; requests = rs })
  finish :
      (b : ℕ) (x : Idx) (d d' : Virtio) (before after : List Idx)
      → rw_end b x d ≡ some (true, d')
      → Step
          (record { disk = d; requests = before ++ (x ∷ after) })
          (record { disk = d'; requests = before ++ after })

pub data Reach (s : System) : System → Type 0 where
  start : Reach s s
  then_step : {t u : System} → Reach s t → Step t u → Reach s u

-- How often a descriptor stands in a request, and in a list of them.
abbrev pub in_request : ℕ → Idx → ℕ
in_request q x =
    (if x.0 == q then 1 else 0) + (if x.1 == q then 1 else 0) + (if x.2 == q then 1 else 0)

abbrev pub count : ℕ → List Idx → ℕ
count q [] = 0
count q (x ∷ xs) = in_request q x + count q xs

pub count-append : (q : ℕ) (xs ys : List Idx) → count q (xs ++ ys) ≡ count q xs + count q ys
count-append q [] ys = omega arith
count-append q (x ∷ xs) ys = omega (arith, count-append q xs ys)

pub data In (y : Idx) : List Idx → Type 0 where
  here : {xs : List Idx} → In y (y ∷ xs)
  there : {x : Idx} {xs : List Idx} → In y xs → In y (x ∷ xs)

pub In-count : {y : Idx} {xs : List Idx} (q : ℕ) → In y xs → in_request q y ≤ count q xs
In-count q here = omega arith
In-count q (there i) = omega (arith, In-count q i)

pub In-more : {y : Idx} (x : Idx) (xs ys : List Idx) → In y (xs ++ ys) → In y (xs ++ (x ∷ ys))
In-more x [] ys i = there i
In-more x (z ∷ xs) ys here = here
In-more x (z ∷ xs) ys (there i) = there (In-more x xs ys i)

pub In-middle : (x : Idx) (xs ys : List Idx) → In x (xs ++ (x ∷ ys))
In-middle x [] ys = here
In-middle x (z ∷ xs) ys = there (In-middle x xs ys)

-- Every descriptor is free or stands in exactly one request, and no request has another; each request is a chain
-- in the descriptors.
pub record IsOwned (d : Virtio) (rs : List Idx) : Type 0 where
  pub one : (q : ℕ) → q < num → count q rs + (if d.free q then 1 else 0) ≡ 1
  pub inside : (q : ℕ) → num ≤ q → count q rs ≡ 0
  pub chained : (y : Idx) → In y rs → IsChain d.desc y

module _ {d : Virtio} {rs : List Idx} (o : IsOwned d rs) {x : Idx} (i : In x rs) where
  once : (q : ℕ) → in_request q x ≤ 1
  once q = elim (dec_lt q num) [
    | yes low ↦ omega (arith, In-count q i, o.one q low)
    | no high ↦ omega (arith, In-count q i, o.inside q (omega (arith, high)))
  ]

  stands_low : (q : ℕ) → 1 ≤ in_request q x → q < num
  stands_low q h = elim (dec_lt q num) [
    | yes low ↦ low
    | no high ↦ absurd (omega (arith, In-count q i, o.inside q (omega (arith, high)), h))
  ]

  pub taken : (q : ℕ) → 1 ≤ in_request q x → d.free q ≡ false
  taken q h = ground (arith, In-count q i, o.one q (stands_low q h))

  pub apart : AreApart x
  apart = record {
    first_data = λ e. ground (arith, once x.0);
    first_last = λ e. ground (arith, once x.0);
    data_last = λ e. ground (arith, once x.1);
  }

  pub are_taken : AreTaken d x
  are_taken =
      let at_first : 1 ≤ in_request x.0 x = ground arith in
      let at_data : 1 ≤ in_request x.1 x = ground arith in
      let at_last : 1 ≤ in_request x.2 x = ground arith in
      record {
        low = (stands_low x.0 at_first, stands_low x.1 at_data, stands_low x.2 at_last);
        first = taken x.0 at_first;
        data_part = taken x.1 at_data;
        last = taken x.2 at_last;
      }
