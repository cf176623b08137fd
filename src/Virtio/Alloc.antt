-- ===== src/Virtio/Alloc.antt =====
-- kernel/virtio_disk.c: what the allocation of descriptors comes to.
use kali.Prelude.{
  ℕ, zero, suc, ◌+◌, ◌≡◌, ◌≢◌, ◌≤◌, ◌<◌, ◌⊎◌, inl, inr, refl, sym, subst, ap, ◌∙◌, Bool, true,
  false, none, some, leb, update, update_self, update_ne, arith, Bool-cases, Option-cases,
  ℕ_discrete, >>=-some, ◌>>=◌,
}
use mathlib.Core.Option.{some-injective}
use kali.Virtio.{
  Virtio, num, find_desc, alloc_desc, release_desc, zero_desc, free_desc, free_each, alloc3_desc,
}

find_desc-none :
    (free : ℕ → Bool) (i rounds : ℕ)
    → find_desc free i rounds ≡ none
    → (q : ℕ) → i ≤ q
    → q < i + rounds
    → free q ≡ false
unfolding find_desc
find_desc-none free i zero e q low high = absurd (omega arith)
find_desc-none free i (suc rounds) e q low high = elim (Bool-cases (free i)) [
  | inl here ↦ let bad = rw here at e in cc
  | inr busy ↦ elim (ℕ_discrete i q) [
    | yes same ↦ subst (λ j. free j ≡ false) same busy
    | no other ↦
        find_desc-none free (i + 1) rounds (rw busy at e) q (omega (arith, low, other))
          (omega arith)
  ]
]

find_desc-some :
    (free : ℕ → Bool) (i rounds j : ℕ)
    → find_desc free i rounds ≡ some j
    → (free j ≡ true) × (j < i + rounds)
unfolding find_desc
find_desc-some free i zero j e = cc
find_desc-some free i (suc rounds) j e = elim (Bool-cases (free i)) [
  | inl here ↦
      let same = some-injective i j (rw here at e) in
      subst (λ q. (free q ≡ true) × (q < i + suc rounds)) same (here, omega arith)
  | inr busy ↦
      let (found, bound) = find_desc-some free (i + 1) rounds j (rw busy at e) in
      (found, omega arith)
]

abbrev pub claim : ℕ → Virtio → Virtio
claim j d = record d { free = update d.free j false }

pub data OneTaken (d : Virtio) : Type 0 where
  full : ((q : ℕ) → q < num → d.free q ≡ false) → alloc_desc d ≡ some (none, d) → OneTaken d
  has_claimed :
      (j : ℕ) → j < num → d.free j ≡ true → alloc_desc d ≡ some (some j, claim j d) → OneTaken d

alloc_desc_cases : (d : Virtio) → OneTaken d
unfolding alloc_desc
alloc_desc_cases d = elim (Option-cases (find_desc d.free 0 num)) [
  | inl e ↦ full (λ q lt. find_desc-none d.free 0 num e q (omega arith) lt) (rw e refl)
  | inr (j, e) ↦
      let (free, bound) = find_desc-some d.free 0 num j e in has_claimed j bound free (rw e refl)
]

pub free_desc_lem :
    (i : ℕ) (d : Virtio) → i < num → d.free i ≡ false → free_desc i d ≡ some (tt, release_desc i d)
unfolding free_desc
free_desc_lem i d lt busy = let inside : leb num i ≡ false = ground arith in rw (inside, busy) refl

-- The descriptors that are not free are as they were, and so is what is free.
pub record IsBack (d d' : Virtio) : Type 0 where
  pub free : (q : ℕ) → d'.free q ≡ d.free q
  pub desc : (q : ℕ) → d.free q ≡ false → d'.desc q ≡ d.desc q

pub data Taking (d : Virtio) : Type 0 where
  too_few :
      (d' : Virtio) (i j : ℕ)
      → alloc3_desc d ≡ some (none, d')
      → IsBack d d'
      → ((q : ℕ) → q < num → d.free q ≡ true → (q ≡ i) ⊎ (q ≡ j))
      → Taking d
  three :
      (i j k : ℕ)
      → (i < num) × (j < num) × (k < num)
      → (d.free i ≡ true) × (d.free j ≡ true) × (d.free k ≡ true)
      → (i ≢ j) × (i ≢ k) × (j ≢ k)
      → alloc3_desc d ≡ some (some (i, j, k), claim k (claim j (claim i d)))
      → Taking d

-- A descriptor that is free behind a claim is another one, and was free before.
unclaimed : (j q : ℕ) (d : Virtio) → (claim j d).free q ≡ true → (j ≢ q) × (d.free q ≡ true)
unclaimed j q d h = elim (ℕ_discrete j q) [
  | yes same ↦ absurd (ground (arith, h, same))
  | no other ↦ (other, sym (update_ne d.free j q false other) ∙ h)
]

-- Taken and given back.
restored :
    (f : ℕ → Bool) (i j : ℕ)
    → f i ≡ true
    → f j ≡ true
    → (q : ℕ) → update (update (update (update f i false) j false) i true) j true q ≡ f q
restored f i j h g q = elim (ℕ_discrete i q) [
  | yes same ↦ ground (arith, same, h, ap f same)
  | no other ↦ elim (ℕ_discrete j q) [
    | yes same ↦ ground (arith, same, g, ap f same)
    | no other' ↦ ground (arith, other, other')
  ]
]

among_two :
    (f : ℕ → Bool) (i j q : ℕ)
    → f q ≡ true
    → update (update f i false) j false q ≡ false
    → (q ≡ i) ⊎ (q ≡ j)
among_two f i j q h g = elim (ℕ_discrete i q) [
  | yes same ↦ inl (sym same)
  | no other ↦ elim (ℕ_discrete j q) [
    | yes same ↦ inr (sym same)
    | no other' ↦
        absurd
          (cc (update_ne (update f i false) j q false other' ∙ update_ne f i q false other, h, g))
  ]
]

after_one :
    (d : Virtio) (i : ℕ)
    → i < num
    → d.free i ≡ true
    → alloc_desc d ≡ some (some i, claim i d)
    → ((q : ℕ) → q < num → (claim i d).free q ≡ false)
    → alloc_desc (claim i d) ≡ some (none, claim i d)
    → Taking d
after_one d i lt h e taken none_left =
    too_few (release_desc i (claim i d)) i i
      (unfold alloc3_desc in
        >>=-some alloc_desc _ e
        ∙ >>=-some alloc_desc _ none_left
        ∙ (unfold free_each in
            rw (free_desc_lem i (claim i d) lt (update_self d.free i false), ◌>>=◌) refl))
      (record {
        free = λ q. ground (arith, restored d.free i i h h q);
        desc = λ q busy. update_ne d.desc i q zero_desc (λ same. cc (h, busy, ap d.free same));
      })
      (λ q low free. among_two d.free i i q free (ground (arith, taken q low)))

after_two :
    (d : Virtio) (i j : ℕ)
    → i < num
    → d.free i ≡ true
    → alloc_desc d ≡ some (some i, claim i d)
    → j < num
    → (claim i d).free j ≡ true
    → alloc_desc (claim i d) ≡ some (some j, claim j (claim i d))
    → ((q : ℕ) → q < num → (claim j (claim i d)).free q ≡ false)
    → alloc_desc (claim j (claim i d)) ≡ some (none, claim j (claim i d))
    → Taking d
after_two d i j lt h e lt' h' e' taken none_left =
    let d'' = claim j (claim i d) in
    let (ij, free_j) = unclaimed i j d h' in
    too_few (release_desc j (release_desc i d'')) i j
      (unfold alloc3_desc in
        >>=-some alloc_desc _ e
        ∙ >>=-some alloc_desc _ e'
        ∙ >>=-some alloc_desc _ none_left
        ∙ (unfold free_each in
            rw
              (
                free_desc_lem i d'' lt (ground arith),
                free_desc_lem j (release_desc i d'') lt' (ground arith),
                ◌>>=◌,
              )
              refl))
      (record {
        free = restored d.free i j h free_j;
        desc = λ q busy.
            update_ne (update d.desc i zero_desc) j q zero_desc
              (λ same. cc (free_j, busy, ap d.free same))
            ∙ update_ne d.desc i q zero_desc (λ same. cc (h, busy, ap d.free same));
      })
      (λ q low free. among_two d.free i j q free (taken q low))

pub alloc3_desc_cases : (d : Virtio) → Taking d
alloc3_desc_cases d = elim (alloc_desc_cases d) [
  | full all e ↦
      too_few d 0 0 (unfold alloc3_desc in >>=-some alloc_desc _ e ∙ (unfold free_each in refl))
        (record { free = λ q. refl; desc = λ q h. refl }) (λ q low free. absurd (cc (all q low)))
  | has_claimed i lt h e ↦ elim (alloc_desc_cases (claim i d)) [
    | full all e' ↦ after_one d i lt h e all e'
    | has_claimed j lt' h' e' ↦ elim (alloc_desc_cases (claim j (claim i d))) [
      | full all e'' ↦ after_two d i j lt h e lt' h' e' all e''
      | has_claimed k lt'' h'' e'' ↦
          let (ij, free_j) = unclaimed i j d h' in
          let (jk, k_free) = unclaimed j k (claim i d) h'' in
          let (ik, free_k) = unclaimed i k d k_free in
          three i j k (lt, lt', lt'') (h, free_j, free_k) (ij, ik, jk)
            (unfold alloc3_desc in
              >>=-some alloc_desc _ e ∙ >>=-some alloc_desc _ e' ∙ >>=-some alloc_desc _ e'')
    ]
  ]
]
