-- ===== src/Strings/Text.antt =====
-- kernel/string.c: strncmp, strncpy, safestrcpy and strlen against the string that stands at an
-- address, its bytes up to the first 0.
use mathlib.Core.Option.{some-injective}
use kali.Prelude.{
  ℕ, zero, suc, ◌+◌, ◌≤◌, ◌<◌, ◌≡◌, ◌≢◌, refl, ◌⊎◌, inl, inr, false, some, not, ◌&&◌, ap, ◌∙◌, ◌↔◌,
  eq→==, ne→==, ◌==◌, ltb, if◌then◌else◌, update, ℤ, pos, pos_part, arith, Bool-cases, ℕ_discrete,
  subst, sym,
}
use native.Mathlib.Nat.{add-zero, zero-add}
use kali.Strings.{
  Memory, strncmp, zero_fill, strncpy_loop, strncpy, safestrcpy_loop, safestrcpy, strlen_from,
  strlen,
}
use kali.Strings.Blocks.{within, shift}

-- Byte `i` of the string at `t`, padded by zeros: 0 from the first 0 on.
abbrev pub padded : Memory → (t i : ℕ) → ℕ
padded m t zero = m t
padded m t (suc i) = if m t == 0 then 0 else padded m (t + 1) i

-- The `n` bytes from `t` on are outside the `n` bytes from `s` on.
abbrev pub Apart : (s t n : ℕ) → Type 0
Apart s t n = (s + n ≤ t) ⊎ (t + n ≤ s)

zero_fill_lem : (m : Memory) (s n q : ℕ) → zero_fill m s n q ≡ (if within s n q then 0 else m q)
unfolding zero_fill
zero_fill_lem m s zero q = ground arith
zero_fill_lem m s (suc n) q = ground (arith, zero_fill_lem (update m s 0) (s + 1) n q)

strncpy_outside : (m : Memory) (s t n q : ℕ) → within s n q ≡ false → strncpy_loop m s t n q ≡ m q
unfolding strncpy_loop
strncpy_outside m s t zero q h = refl
strncpy_outside m s t (suc n) q h = ground (
  arith,
  zero_fill_lem (update m s (m t)) (s + 1) n q,
  strncpy_outside (update m s (m t)) (s + 1) (t + 1) n q,
)

padded_same :
    (m m' : Memory) (t i : ℕ)
    → ((q : ℕ) → t ≤ q → q ≤ t + i → m' q ≡ m q)
    → padded m' t i ≡ padded m t i
padded_same m m' t zero h = h t (omega arith) (omega arith)
padded_same m m' t (suc i) h = ground (
  arith,
  h t (omega arith) (omega arith),
  padded_same m m' (t + 1) i (λ q a b. h q (omega arith) (omega arith)),
)

strncpy_inside :
    (m : Memory) (s t n i : ℕ) → Apart s t n → i < n → strncpy_loop m s t n (s + i) ≡ padded m t i
unfolding strncpy_loop
strncpy_inside m s t zero i a h = absurd (omega arith)
strncpy_inside m s t (suc n) zero a h = rw (add-zero s) (elim (Bool-cases (m t == 0)) [
  | inl end ↦ rw end (ground (arith, zero_fill_lem (update m s (m t)) (s + 1) n s))
  | inr more ↦
      rw more
        (ground (arith, strncpy_outside (update m s (m t)) (s + 1) (t + 1) n s (ground arith)))
])
strncpy_inside m s t (suc n) (suc i) a h = rw (shift s i) (elim (Bool-cases (m t == 0)) [
  | inl end ↦ rw end (ground (arith, zero_fill_lem (update m s (m t)) (s + 1) n (s + 1 + i)))
  | inr more ↦ rw more (
      strncpy_inside (update m s (m t)) (s + 1) (t + 1) n i (omega arith) (omega arith)
      ∙ padded_same m (update m s (m t)) (t + 1) i (λ q lo hi. ground arith))
])

-- strncpy into a target apart from its source leaves there the string at `t`, padded by zeros to
-- `n` bytes, and stores to no byte outside the target. A count below 1 stores nothing.
pub strncpy_lem :
    (m : Memory) (s t : ℕ) (n : ℤ)
    → Apart s t (pos_part n)
    → ((i : ℕ) → i < pos_part n → strncpy m s t n (s + i) ≡ padded m t i)
      × ((q : ℕ) → within s (pos_part n) q ≡ false → strncpy m s t n q ≡ m q)
unfolding strncpy
strncpy_lem m s t n a =
    (λ i h. strncpy_inside m s t (pos_part n) i a h, λ q h. strncpy_outside m s t (pos_part n) q h)

safestrcpy_outside :
    (m : Memory) (s t room q : ℕ)
    → within s (suc room) q ≡ false
    → safestrcpy_loop m s t room q ≡ m q
unfolding safestrcpy_loop
safestrcpy_outside m s t zero q h = ground arith
safestrcpy_outside m s t (suc room) q h =
    ground (arith, safestrcpy_outside (update m s (m t)) (s + 1) (t + 1) room q)

safestrcpy_end :
    (m : Memory) (s t room : ℕ)
    → m t ≡ 0
    → safestrcpy_loop m s t (suc room) ≡ update (update m s (m t)) (s + 1) 0
unfolding safestrcpy_loop
safestrcpy_end m s t room e = rw (eq→== (m t) 0 e)

safestrcpy_more :
    (m : Memory) (s t room : ℕ)
    → m t ≢ 0
    → safestrcpy_loop m s t (suc room) ≡ safestrcpy_loop (update m s (m t)) (s + 1) (t + 1) room
unfolding safestrcpy_loop
safestrcpy_more m s t room e = rw (ne→== (m t) 0 e)

safestrcpy_none : (m : Memory) (s t : ℕ) → safestrcpy_loop m s t zero ≡ update m s 0
unfolding safestrcpy_loop
safestrcpy_none m s t = refl

-- The first `room` bytes after the first of the source are spared by the store to the target.
padded_store :
    (m : Memory) (s t room i : ℕ)
    → Apart s t (suc (suc room))
    → i < room
    → padded (update m s (m t)) (t + 1) i ≡ padded m (t + 1) i
padded_store m s t room i a lt =
    padded_same m (update m s (m t)) (t + 1) i (λ q lo hi. ground arith)

safestrcpy_inside :
    (m : Memory) (s t room i : ℕ)
    → Apart s t (suc room)
    → padded (safestrcpy_loop m s t room) s i ≡ (if ltb i room then padded m t i else 0)
safestrcpy_inside m s t zero zero a = rw (safestrcpy_none m s t) (ground arith)
safestrcpy_inside m s t zero (suc i) a = rw (safestrcpy_none m s t) (ground arith)
safestrcpy_inside m s t (suc room) zero a = elim (ℕ_discrete (m t) 0) [
  | yes end ↦ rw (safestrcpy_end m s t room end) (ground arith)
  | no more ↦
      rw (safestrcpy_more m s t room more)
        (ground (arith, safestrcpy_outside (update m s (m t)) (s + 1) (t + 1) room s))
]
safestrcpy_inside m s t (suc room) (suc i) a = elim (ℕ_discrete (m t) 0) [
  | yes end ↦
      subst (λ g. padded g s (suc i) ≡ goal) (sym (safestrcpy_end m s t room end)) (ground arith)
  | no more ↦
      subst (λ g. padded g s (suc i) ≡ goal) (sym (safestrcpy_more m s t room more))
        (ground (
          arith,
          safestrcpy_outside (update m s (m t)) (s + 1) (t + 1) room s,
          safestrcpy_inside (update m s (m t)) (s + 1) (t + 1) room i (omega arith),
          padded_store m s t room i a,
        ))
]
  where
    goal : ℕ
    goal = if ltb (suc i) (suc room) then padded m t (suc i) else 0

-- safestrcpy with room for `n` bytes, 1 at least, leaves at `s` a terminated string: that at `t` cut
-- off after `n - 1` bytes; it stores to no byte outside the target.
pub safestrcpy_lem :
    (m : Memory) (s t n : ℕ)
    → Apart s t (suc n)
    → ((i : ℕ)
        → padded (safestrcpy m s t (pos (suc n))) s i ≡ (if ltb i n then padded m t i else 0))
      × ((q : ℕ) → within s (suc n) q ≡ false → safestrcpy m s t (pos (suc n)) q ≡ m q)
unfolding safestrcpy
safestrcpy_lem m s t n a =
    (λ i. safestrcpy_inside m s t n i a, λ q h. safestrcpy_outside m s t n q h)

strncmp_same :
    (m : Memory) (p q n : ℕ)
    → strncmp m p q n ≡ pos 0
    → (i : ℕ) → i < n
    → padded m p i ≡ padded m q i
unfolding strncmp
strncmp_same m p q zero h i lt = absurd (omega arith)
strncmp_same m p q (suc n) h zero lt = ground arith
strncmp_same m p q (suc n) h (suc i) lt = elim (Bool-cases (not (m p == 0) && (m p == m q))) [
  | inl more ↦
      let rest = strncmp_same m (p + 1) (q + 1) n (rw more at h) i (omega arith) in
      ground (arith, rest)
  | inr end ↦ let e = rw end at h in ground (arith, e)
]

same_strncmp :
    (m : Memory) (p q n : ℕ)
    → ((i : ℕ) → i < n → padded m p i ≡ padded m q i)
    → strncmp m p q n ≡ pos 0
unfolding strncmp
same_strncmp m p q zero h = refl
same_strncmp m p q (suc n) h = elim (Bool-cases (not (m p == 0) && (m p == m q))) [
  | inl more ↦
      rw more (same_strncmp m (p + 1) (q + 1) n (λ i lt. ground (arith, h (suc i) (omega arith))))
  | inr end ↦ rw end (ground (arith, h 0 (omega arith)))
]

-- strncmp is 0 exactly when the strings, padded by zeros, agree in their first `n` bytes.
pub strncmp_iff :
    (m : Memory) (p q n : ℕ)
    → (strncmp m p q n ≡ pos 0) ↔ ((i : ℕ) → i < n → padded m p i ≡ padded m q i)
strncmp_iff m p q n = (strncmp_same m p q n, same_strncmp m p q n)

strlen_from_lem :
    (fuel : ℕ) (m : Memory) (s n k : ℕ)
    → k < fuel
    → ((i : ℕ) → i < k → m (s + (n + i)) ≢ 0)
    → m (s + (n + k)) ≡ 0
    → strlen_from fuel m s n ≡ some (n + k)
unfolding strlen_from
strlen_from_lem zero m s n k f h e = absurd (omega arith)
strlen_from_lem (suc fuel) m s n zero f h e =
    rw (add-zero n) (rw (eq→== (m (s + n)) 0 (rw (add-zero n) at e)))
strlen_from_lem (suc fuel) m s n (suc k) f h e =
    rw (ne→== (m (s + n)) 0 (rw (add-zero n) at (h 0 (omega arith)))) (
      rw (shift n k) (
        strlen_from_lem fuel m s (n + 1) k (omega arith)
          (λ i lt. rw (← shift n i) (h (suc i) (omega arith))) (rw (← shift n k) e)))

-- With fuel above it, strlen returns the index of the first 0.
pub strlen_lem :
    (fuel : ℕ) (m : Memory) (s k : ℕ)
    → k < fuel
    → ((i : ℕ) → i < k → m (s + i) ≢ 0)
    → m (s + k) ≡ 0
    → strlen fuel m s ≡ some k
unfolding strlen
strlen_lem fuel m s k f h e =
    strlen_from_lem fuel m s 0 k f (λ i lt. rw (zero-add i) (h i lt)) (rw (zero-add k) e)
    ∙ ap some (zero-add k)

strlen_bound : (fuel : ℕ) (m : Memory) (s n r : ℕ) → strlen_from fuel m s n ≡ some r → r < n + fuel
unfolding strlen_from
strlen_bound zero m s n r e = cc
strlen_bound (suc fuel) m s n r e = elim (Bool-cases (m (s + n) == 0)) [
  | inl found ↦ let same = some-injective n r (rw found at e) in omega arith
  | inr more ↦ omega (arith, strlen_bound fuel m s (n + 1) r (rw more at e))
]

-- The length is less than the fuel.
pub strlen_bounds : (fuel : ℕ) (m : Memory) (s r : ℕ) → strlen fuel m s ≡ some r → r < fuel
unfolding strlen
strlen_bounds fuel m s r e = omega (arith, strlen_bound fuel m s 0 r e)
