-- ===== src/Virtio/Requests.antt =====
-- kernel/virtio_disk.c: a request that begins or ends keeps the descriptors owned.
use kali.Prelude.{
  ℕ, ◌+◌, ◌≡◌, ◌≢◌, ◌≤◌, ◌<◌, ap, ◌∙◌, Bool, true, false, List, ◌∷◌, ◌++◌, if◌then◌else◌, update,
  update_ne, arith, ℕ_discrete, dec_lt,
}
use kali.Virtio.{Virtio, Desc, num, zero_desc, Idx, first_desc, data_desc, status_desc, submit}
use kali.Virtio.Alloc.{claim}
use kali.Virtio.Chains.{IsChain, AreApart, submit-IsChain, ended}
use kali.Virtio.System.{
  in_request, count, count-append, In, here, there, In-count, In-more, IsOwned, taken,
}

-- Three stores leave the rest.
kept {ℓ} :
    {A : Type ℓ} (f : ℕ → A) (x : Idx) (a b c : A) (q : ℕ)
    → in_request q x ≡ 0
    → update (update (update f x.0 a) x.1 b) x.2 c q ≡ f q
kept f x a b c q h =
    update_ne (update (update f x.0 a) x.1 b) x.2 q c (λ e. ground arith)
    ∙ update_ne (update f x.0 a) x.1 q b (λ e. ground arith)
    ∙ update_ne f x.0 q a (λ e. ground arith)

pub IsChain-same :
    {desc desc' : ℕ → Desc} (y : Idx)
    → ((q : ℕ) → 1 ≤ in_request q y → desc' q ≡ desc q)
    → IsChain desc y
    → IsChain desc' y
IsChain-same y same c = record {
  buffer = c.buffer;
  write = c.write;
  first = same y.0 (ground arith) ∙ c.first;
  data_part = same y.1 (ground arith) ∙ c.data_part;
  last = same y.2 (ground arith) ∙ c.last;
}

at_most_one : {d : Virtio} {rs : List Idx} → IsOwned d rs → (q : ℕ) → count q rs ≤ 1
at_most_one o q = elim (dec_lt q num) [
  | yes low ↦ omega (arith, o.one q low)
  | no high ↦ omega (arith, o.inside q (omega (arith, high)))
]

pub finish-IsOwned :
    (x : Idx) (d : Virtio) (before after : List Idx)
    → IsOwned d (before ++ (x ∷ after))
    → IsOwned (ended x d) (before ++ after)
finish-IsOwned x d before after o = record {
  one = λ q low.
      ground (arith, o.one q low, count-append q before (x ∷ after), count-append q before after);
  inside = λ q high.
      omega
        (arith, o.inside q high, count-append q before (x ∷ after), count-append q before after);
  chained = λ y i.
      IsChain-same y
        (λ q stands. kept d.desc x zero_desc zero_desc zero_desc q (
          omega (
            arith,
            stands,
            In-count q i,
            at_most_one o q,
            count-append q before (x ∷ after),
            count-append q before after,
          )))
        (o.chained y (In-more x before after i));
}

unseen :
    (f : ℕ → Bool) (x : Idx) (q : ℕ)
    → (f (x.0) ≡ true) × (f (x.1) ≡ true) × (f (x.2) ≡ true)
    → f q ≡ false
    → in_request q x ≡ 0
unseen f x q (first, data_part, last) busy =
    let ne0 : x.0 ≢ q = λ e. cc (first, busy, ap f e) in
    let ne1 : x.1 ≢ q = λ e. cc (data_part, busy, ap f e) in
    let ne2 : x.2 ≢ q = λ e. cc (last, busy, ap f e) in ground arith

-- A free descriptor that a request takes, or another one.
taken_or_kept :
    (f : ℕ → Bool) (x : Idx) (n q : ℕ)
    → (f (x.0) ≡ true) × (f (x.1) ≡ true) × (f (x.2) ≡ true)
    → AreApart x
    → n + (if f q then 1 else 0) ≡ 1
    → in_request q x
        + n
        + (if update (update (update f x.0 false) x.1 false) x.2 false q then 1 else 0)
      ≡ 1
taken_or_kept f x n q (first, data_part, last) a h = elim (ℕ_discrete x.0 q) [
  | yes e ↦ ground (arith, a.first_data, a.first_last, e, ap f e, first, h)
  | no ne0 ↦ elim (ℕ_discrete x.1 q) [
    | yes e ↦ ground (arith, a.data_last, e, ap f e, data_part, h)
    | no ne1 ↦ elim (ℕ_discrete x.2 q) [
      | yes e ↦ ground (arith, e, ap f e, last, h)
      | no ne2 ↦ ground (arith, ne0, ne1, ne2, h)
    ]
  ]
]

submit-desc :
    (b blockno : ℕ) (write : Bool) (x : Idx) (d : Virtio) (q : ℕ)
    → in_request q x ≡ 0
    → (submit b blockno write x d).desc q ≡ d.desc q
unfolding submit
submit-desc b blockno write x d q h =
    kept d.desc x (first_desc x) (data_desc b write x) (status_desc x) q h

pub begin-IsOwned :
    (b blockno : ℕ) (write : Bool) (x : Idx) (d : Virtio) (rs : List Idx)
    → IsOwned d rs
    → (x.0 < num) × (x.1 < num) × (x.2 < num)
    → (d.free (x.0) ≡ true) × (d.free (x.1) ≡ true) × (d.free (x.2) ≡ true)
    → AreApart x
    → IsOwned (submit b blockno write x (claim x.2 (claim x.1 (claim x.0 d)))) (x ∷ rs)
begin-IsOwned b blockno write x d rs o low free a = record {
  one = unfold submit in λ q lt. taken_or_kept d.free x (count q rs) q free a (o.one q lt);
  inside = λ q high. ground (arith, o.inside q high, low);
  chained = λ y i. begin_chained y i;
}
  where
    begin_chained :
        (y : Idx)
        → In y (x ∷ rs)
        → IsChain (submit b blockno write x (claim x.2 (claim x.1 (claim x.0 d)))).desc y
    begin_chained y here = submit-IsChain b blockno write x (claim x.2 (claim x.1 (claim x.0 d))) a
    begin_chained y (there i) =
        IsChain-same y
          (λ q stands.
            submit-desc b blockno write x (claim x.2 (claim x.1 (claim x.0 d))) q
              (unseen d.free x q free (taken o i q stands)))
          (o.chained y i)
