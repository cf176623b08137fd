-- ===== src/Strings/Blocks.antt =====
-- kernel/string.c: what memset, memmove and memcmp do, for blocks of any size and overlap.
use kali.Prelude.{
  ℕ, zero, suc, ◌+◌, ◌-◌, ◌%◌, ◌≤◌, ◌<◌, ◌≡◌, ◌≢◌, refl, ◌⊎◌, inl, inr, Bool, ◌&&◌, ◌==◌, ltb, leb,
  if◌then◌else◌, update, pos, sub_ℕ, arith, Bool-cases, dec_lt, ==→eq, ==→ne,
}
use native.Mathlib.Nat.{add-zero}
use kali.Strings.{Memory, memset_loop, memset, memcmp, copy_up, copy_down, memmove}

-- Whether `q` lies in the `n` bytes from `d` on.
abbrev pub within : (d n q : ℕ) → Bool
within d n q = leb d q && ltb q (d + n)

memset_loop_lem :
    (m : Memory) (d c i k q : ℕ)
    → memset_loop m d c i k q ≡ (if within (d + i) k q then c % 256 else m q)
unfolding memset_loop
memset_loop_lem m d c i zero q = ground arith
memset_loop_lem m d c i (suc k) q =
    ground (arith, memset_loop_lem (update m (d + i) (c % 256)) d c (i + 1) k q)

-- memset stores the low byte of `c` to each of the `n` bytes from `dst` on, and to no other.
pub memset_lem :
    (m : Memory) (dst c n q : ℕ) → memset m dst c n q ≡ (if within dst n q then c % 256 else m q)
unfolding memset
memset_lem m dst c n q = ground (arith, memset_loop_lem m dst c 0 n q)

-- Copying upward is right if the source does not start below a target that it overlaps.
copy_up_lem :
    (m : Memory) (d s n q : ℕ)
    → (d ≤ s) ⊎ (s + n ≤ d)
    → copy_up m d s n q ≡ (if within d n q then m (s + (q - d)) else m q)
unfolding copy_up
copy_up_lem m d s zero q h = ground arith
copy_up_lem m d s (suc n) q h = ground (arith, copy_up_lem (update m d (m s)) (d + 1) (s + 1) n q)

copy_down_lem :
    (m : Memory) (d s n q : ℕ)
    → s < d
    → copy_down m d s n q ≡ (if within d n q then m (s + (q - d)) else m q)
unfolding copy_down
copy_down_lem m d s zero q h = ground arith
copy_down_lem m d s (suc n) q h =
    ground (arith, copy_down_lem (update m (d + n) (m (s + n))) d s n q h)

-- memmove copies the `n` bytes as they were before the call, whatever the overlap, and stores to no
-- byte outside the target.
pub memmove_lem :
    (m : Memory) (dst src n q : ℕ)
    → memmove m dst src n q ≡ (if within dst n q then m (src + (q - dst)) else m q)
unfolding memmove
memmove_lem m dst src n q = elim (dec_lt src dst) [
  | yes below ↦ ground (arith, copy_down_lem m dst src n q below, copy_up_lem m dst src n q)
  | no above ↦ ground (arith, copy_up_lem m dst src n q (inl (omega arith)))
]

-- Where two blocks of `n` bytes first differ: at `i`, with equal bytes before it.
pub record FirstDiffer (m : Memory) (s1 s2 n i : ℕ) : Type 0 where
  pub bound : i < n
  pub before : (j : ℕ) → j < i → m (s1 + j) ≡ m (s2 + j)
  pub differ : m (s1 + i) ≢ m (s2 + i)

abbrev pub SameBytes : Memory → (s1 s2 n : ℕ) → Type 0
SameBytes m s1 s2 n = (j : ℕ) → j < n → m (s1 + j) ≡ m (s2 + j)

pub shift : (s i : ℕ) → s + suc i ≡ s + 1 + i
shift s i = omega arith

SameBytes-suc :
    (m : Memory) (s1 s2 n : ℕ)
    → m s1 ≡ m s2
    → SameBytes m (s1 + 1) (s2 + 1) n
    → SameBytes m s1 s2 (suc n)
SameBytes-suc m s1 s2 n e h zero lt = rw (add-zero s1, add-zero s2) e
SameBytes-suc m s1 s2 n e h (suc j) lt = ground (arith, h j (omega arith))

-- memcmp is 0 if the blocks agree, and else the difference of the bytes at the first place where
-- they do not.
pub memcmp_lem :
    (m : Memory) (s1 s2 n : ℕ)
    → (SameBytes m s1 s2 n × (memcmp m s1 s2 n ≡ pos 0))
      ⊎ ((i : ℕ) × FirstDiffer m s1 s2 n i × (memcmp m s1 s2 n ≡ sub_ℕ (m (s1 + i)) (m (s2 + i))))
unfolding memcmp
memcmp_lem m s1 s2 zero = inl ((λ j lt. absurd (omega arith)), refl)
memcmp_lem m s1 s2 (suc n) = elim (Bool-cases (m s1 == m s2)) [
  | inl same ↦ rw same (elim (memcmp_lem m (s1 + 1) (s2 + 1) n) [
    | inl (all, e) ↦ inl (SameBytes-suc m s1 s2 n (==→eq _ _ same) all, e)
    | inr (i, d, e) ↦ inr (
      suc i,
      record {
        bound = omega (arith, d.bound);
        before = SameBytes-suc m s1 s2 i (==→eq _ _ same) d.before;
        differ = rw (shift s1 i, shift s2 i) d.differ;
      },
      rw (shift s1 i, shift s2 i) e,
    )
  ])
  | inr other ↦ rw other (
      inr (
        zero,
        record {
          bound = omega arith;
          before = λ j lt. absurd (omega arith);
          differ = rw (add-zero s1, add-zero s2) (==→ne _ _ other);
        },
        rw (add-zero s1, add-zero s2),
      ))
]
