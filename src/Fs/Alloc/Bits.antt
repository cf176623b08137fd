-- ===== src/Fs/Alloc/Bits.antt =====
-- kernel/fs.c: bits of the bitmap in its bytes, and bytes in their words.
use kali.Prelude.{
  ℕ, zero, suc, ◌+◌, ◌-◌, ◌*◌, ◌/◌, ◌%◌, ◌^◌, ◌≡◌, ◌<◌, refl, ap, ◌∙◌, Bool, true, false, not, ◌&&◌,
  ◌||◌, ◌==◌, ltb, if◌then◌else◌, arith, Bool-cases, inl, inr, ==→eq, ltb→lt,
}
use kali.Buffers.{Block}
use kali.Fs.{get_byte, set_byte}
use kali.Fs.Alloc.{in_use, mark, unmark}

-- Byte `k` of a word, and the word with that byte replaced.
abbrev pick : (w k : ℕ) → ℕ
pick w k = w / 256 ^ k % 256

abbrev put : (w k v : ℕ) → ℕ
put w k v = w - pick w k * 256 ^ k + v * 256 ^ k

pick-put :
    (w k j v : ℕ) → k < 4 → j < 4 → v < 256 → pick (put w k v) j ≡ (if k == j then v else pick w j)
pick-put w zero zero v hk hj hv = omega (arith, hv)
pick-put w zero (suc zero) v hk hj hv = omega (arith, hv)
pick-put w zero (suc (suc zero)) v hk hj hv = omega (arith, hv)
pick-put w zero (suc (suc (suc zero))) v hk hj hv = omega (arith, hv)
pick-put w (suc zero) zero v hk hj hv = omega (arith, hv)
pick-put w (suc zero) (suc zero) v hk hj hv = omega (arith, hv)
pick-put w (suc zero) (suc (suc zero)) v hk hj hv = omega (arith, hv)
pick-put w (suc zero) (suc (suc (suc zero))) v hk hj hv = omega (arith, hv)
pick-put w (suc (suc zero)) zero v hk hj hv = omega (arith, hv)
pick-put w (suc (suc zero)) (suc zero) v hk hj hv = omega (arith, hv)
pick-put w (suc (suc zero)) (suc (suc zero)) v hk hj hv = omega (arith, hv)
pick-put w (suc (suc zero)) (suc (suc (suc zero))) v hk hj hv = omega (arith, hv)
pick-put w (suc (suc (suc zero))) zero v hk hj hv = omega (arith, hv)
pick-put w (suc (suc (suc zero))) (suc zero) v hk hj hv = omega (arith, hv)
pick-put w (suc (suc (suc zero))) (suc (suc zero)) v hk hj hv = omega (arith, hv)
pick-put w (suc (suc (suc zero))) (suc (suc (suc zero))) v hk hj hv = omega (arith, hv)
pick-put w (suc (suc (suc (suc k)))) j v hk hj hv = absurd (omega (arith, hk))
pick-put w zero (suc (suc (suc (suc j)))) v hk hj hv = absurd (omega (arith, hj))
pick-put w (suc zero) (suc (suc (suc (suc j)))) v hk hj hv = absurd (omega (arith, hj))
pick-put w (suc (suc zero)) (suc (suc (suc (suc j)))) v hk hj hv = absurd (omega (arith, hj))
pick-put w (suc (suc (suc zero))) (suc (suc (suc (suc j)))) v hk hj hv = absurd (omega (arith, hj))

same_index : (i j : ℕ) → (i / 4 == j / 4) ≡ true → (i == j) ≡ (i % 4 == j % 4)
same_index i j h = ground (arith, h)

other_index : (i j : ℕ) → (i / 4 == j / 4) ≡ false → (i == j) ≡ false
other_index i j h = ground (arith, h)

pub get_byte-set_byte :
    (x : Block) (i j v : ℕ)
    → v < 256
    → get_byte (set_byte x i v) j ≡ (if i == j then v else get_byte x j)
unfolding get_byte set_byte
get_byte-set_byte x i j v h = elim (Bool-cases (i / 4 == j / 4)) [
  | inl same ↦ rw (same_index i j same) (
      rw same (
        pick-put (x (i / 4)) (i % 4) (j % 4) v (omega arith) (omega arith) h
        ∙ ap (λ q. if i % 4 == j % 4 then v else pick (x q) (j % 4)) (==→eq (i / 4) (j / 4) same)))
  | inr other ↦ rw (other_index i j other) (rw other refl)
]

-- Over a small range, a test that holds at every value.
all_below : ℕ → (ℕ → Bool) → Bool
all_below zero p = true
all_below (suc n) p = p n && all_below n p

all_below_lem : (n : ℕ) (p : ℕ → Bool) (x : ℕ) → all_below n p ≡ true → x < n → p x ≡ true
unfolding all_below
all_below_lem zero p x h small = absurd (omega arith)
all_below_lem (suc n) p x h small = ground (arith, all_below_lem n p x)

abbrev bit : (b k : ℕ) → Bool
bit b k = b / 2 ^ k % 2 == 1

abbrev agree : Bool → Bool → Bool
agree true b = b
agree false b = not b

abbrev sets : (b k j : ℕ) → Bool
sets b k j = bit b k || (ltb (b + 2 ^ k) 256 && agree (bit (b + 2 ^ k) j) (k == j || bit b j))

set_table : all_below 256 (λ b. all_below 8 (λ k. all_below 8 (λ j. sets b k j))) ≡ true
unfolding all_below
set_table = refl

abbrev clears : (b k j : ℕ) → Bool
clears b k j = not (bit b k) || agree (bit (b - 2 ^ k) j) (not (k == j) && bit b j)

clear_table : all_below 256 (λ b. all_below 8 (λ k. all_below 8 (λ j. clears b k j))) ≡ true
unfolding all_below
clear_table = refl

at_all :
    (p : ℕ → ℕ → ℕ → Bool)
    → all_below 256 (λ b. all_below 8 (λ k. all_below 8 (λ j. p b k j))) ≡ true
    → (b k j : ℕ) → b < 256
    → k < 8
    → j < 8
    → p b k j ≡ true
at_all p table b k j hb hk hj =
    all_below_lem 8 (λ j. p b k j) j
      (all_below_lem 8 (λ k. all_below 8 (λ j. p b k j)) k
        (all_below_lem 256 (λ b. all_below 8 (λ k. all_below 8 (λ j. p b k j))) b table hb) hk)
      hj

from_or : (s t u v : Bool) → s ≡ false → (s || (t && agree u v)) ≡ true → (t ≡ true) × (u ≡ v)
from_or s true true true e h = (refl, refl)
from_or s true false false e h = (refl, refl)
from_or true t u v e h = cc
from_or false false u v e h = cc
from_or false true true false e h = cc
from_or false true false true e h = cc

set_bit :
    (b k j : ℕ)
    → b < 256
    → k < 8
    → j < 8
    → bit b k ≡ false
    → (ltb (b + 2 ^ k) 256 ≡ true) × (bit (b + 2 ^ k) j ≡ (k == j || bit b j))
set_bit b k j hb hk hj clear =
    from_or (bit b k) (ltb (b + 2 ^ k) 256) (bit (b + 2 ^ k) j) (k == j || bit b j) clear
      (at_all sets set_table b k j hb hk hj)

clear_bit :
    (b k j : ℕ)
    → b < 256
    → k < 8
    → j < 8
    → bit b k ≡ true
    → bit (b - 2 ^ k) j ≡ (not (k == j) && bit b j)
clear_bit b k j hb hk hj set =
    (from_or (not (bit b k)) true (bit (b - 2 ^ k) j) (not (k == j) && bit b j) (rw set refl)
      (at_all clears clear_table b k j hb hk hj)).1

same_bit : (i j : ℕ) → (i / 8 == j / 8) ≡ true → (i == j) ≡ (i % 8 == j % 8)
same_bit i j h = ground (arith, h)

other_bit : (i j : ℕ) → (i / 8 == j / 8) ≡ false → (i == j) ≡ false
other_bit i j h = ground (arith, h)

in_use-set_byte :
    (x : Block) (i j v : ℕ)
    → v < 256
    → in_use (set_byte x (i / 8) v) j ≡ (if i / 8 == j / 8 then bit v (j % 8) else in_use x j)
unfolding in_use
in_use-set_byte x i j v h =
    ap (λ w. bit w (j % 8)) (get_byte-set_byte x (i / 8) (j / 8) v h)
    ∙ elim (Bool-cases (i / 8 == j / 8)) [ inl same ↦ rw same refl | inr other ↦ rw other refl ]

get_byte-lt : (x : Block) (i : ℕ) → get_byte x i < 256
unfolding get_byte
get_byte-lt x i = omega arith

byte_same :
    (x : Block) (i j : ℕ) → (i / 8 == j / 8) ≡ true → bit (get_byte x (i / 8)) (j % 8) ≡ in_use x j
unfolding in_use
byte_same x i j same = ap (λ q. bit (get_byte x q) (j % 8)) (==→eq (i / 8) (j / 8) same)

-- Marking a free block changes its bit and no other.
pub in_use-mark :
    (x : Block) (i j : ℕ) → in_use x i ≡ false → in_use (mark x i) j ≡ (i == j || in_use x j)
unfolding mark
in_use-mark x i j free =
    let (fits, set) =
      set_bit (get_byte x (i / 8)) (i % 8) (j % 8) (get_byte-lt x (i / 8)) (omega arith)
        (omega arith) (unfold in_use in free) in
    in_use-set_byte x i j (get_byte x (i / 8) + 2 ^ (i % 8)) (ltb→lt _ 256 fits)
    ∙ elim (Bool-cases (i / 8 == j / 8)) [
      | inl same ↦
          rw same
            (set ∙ rw (same_bit i j same) (ap (λ t. i % 8 == j % 8 || t) (byte_same x i j same)))
      | inr other ↦ rw (other, other_bit i j other) refl
    ]

pub in_use-unmark :
    (x : Block) (i j : ℕ) → in_use x i ≡ true → in_use (unmark x i) j ≡ (not (i == j) && in_use x j)
unfolding unmark
in_use-unmark x i j used =
    let cleared =
      clear_bit (get_byte x (i / 8)) (i % 8) (j % 8) (get_byte-lt x (i / 8)) (omega arith)
        (omega arith) (unfold in_use in used) in
    in_use-set_byte x i j (get_byte x (i / 8) - 2 ^ (i % 8)) (omega (arith, get_byte-lt x (i / 8)))
    ∙ elim (Bool-cases (i / 8 == j / 8)) [
      | inl same ↦ rw same (
          cleared
          ∙ rw (same_bit i j same) (ap (λ t. not (i % 8 == j % 8) && t) (byte_same x i j same)))
      | inr other ↦ rw (other, other_bit i j other) refl
    ]
