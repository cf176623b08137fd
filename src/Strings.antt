-- ===== src/Strings.antt =====
-- kernel/string.c: memset, memcmp, memmove, memcpy, strncmp, strncpy, safestrcpy and strlen over
-- memory, a byte at each address. An address is any number: `addr + n` below 2 ^ 64 is the caller's
-- affair. A `uint` count is the number of rounds left; an `int` count is a signed integer.
pub mod Blocks
pub mod Text
mod Tests
use kali.Prelude.{
  ℕ, zero, suc, ◌+◌, ◌%◌, Bool, true, false, ◌&&◌, not, Option, none, some, ◌==◌, ltb,
  if◌then◌else◌, update, ℤ, pos, pos_part, sub_ℕ,
}

abbrev pub Memory : Type 0
Memory = ℕ → ℕ

-- `cdst[i] = c` for each `i < n`; the store to a `char` keeps the low byte of `c`.
pub memset_loop : Memory → (cdst c i rounds : ℕ) → Memory
memset_loop m cdst c i zero = m
memset_loop m cdst c i (suc k) = memset_loop (update m (cdst + i) (c % 256)) cdst c (i + 1) k

unfoldable pub memset : Memory → (dst c n : ℕ) → Memory
unfolding memset_loop
memset m dst c n = memset_loop m dst c 0 n

pub memcmp : Memory → (s1 s2 n : ℕ) → ℤ
memcmp m s1 s2 zero = pos 0
memcmp m s1 s2 (suc n) =
    let rest = memcmp m (s1 + 1) (s2 + 1) n in
    if not (m s1 == m s2) then sub_ℕ (m s1) (m s2) else rest

-- `*d++ = *s++`, n times.
unfoldable pub copy_up : Memory → (d s n : ℕ) → Memory
copy_up m d s zero = m
copy_up m d s (suc n) = copy_up (update m d (m s)) (d + 1) (s + 1) n

-- `*--d = *--s`, n times, from `d + n` and `s + n`.
unfoldable pub copy_down : Memory → (d s n : ℕ) → Memory
copy_down m d s zero = m
copy_down m d s (suc n) = copy_down (update m (d + n) (m (s + n))) d s n

unfoldable pub memmove : Memory → (dst src n : ℕ) → Memory
memmove m dst src n =
    if n == 0
    then m
    else if ltb src dst && ltb dst (src + n)
    then copy_down m dst src n
    else copy_up m dst src n

pub memcpy : Memory → (dst src n : ℕ) → Memory
memcpy m dst src n = memmove m dst src n

pub strncmp : Memory → (p q n : ℕ) → ℤ
strncmp m p q zero = pos 0
strncmp m p q (suc n) =
    let rest = strncmp m (p + 1) (q + 1) n in
    if not (m p == 0) && (m p == m q) then rest else sub_ℕ (m p) (m q)

-- The second loop of `strncpy`: `n` zeros from `s` on.
pub zero_fill : Memory → (s n : ℕ) → Memory
zero_fill m s zero = m
zero_fill m s (suc n) = zero_fill (update m s 0) (s + 1) n

pub strncpy_loop : Memory → (s t n : ℕ) → Memory
unfolding zero_fill
strncpy_loop m s t zero = m
strncpy_loop m s t (suc n) =
    let m' = update m s (m t) in
    let rest = strncpy_loop m' (s + 1) (t + 1) n in
    if m t == 0 then zero_fill m' (s + 1) n else rest

pub strncpy : Memory → (s t : ℕ) → (n : ℤ) → Memory
unfolding strncpy_loop
strncpy m s t n = strncpy_loop m s t (pos_part n)

-- `while(--n > 0 && (*s++ = *t++) != 0); *s = 0;` with `room` the value of `--n`.
pub safestrcpy_loop : Memory → (s t room : ℕ) → Memory
safestrcpy_loop m s t zero = update m s 0
safestrcpy_loop m s t (suc room) =
    let m' = update m s (m t) in
    let rest = safestrcpy_loop m' (s + 1) (t + 1) room in
    if m t == 0 then update m' (s + 1) 0 else rest

pub safestrcpy : Memory → (s t : ℕ) → (n : ℤ) → Memory
unfolding safestrcpy_loop
safestrcpy m s t n = elim (pos_part n) [ zero ↦ m | suc room ↦ safestrcpy_loop m s t room ]

-- The loop of `strlen` from index `n`, on fuel; `none` means that the fuel ran out.
unfoldable pub strlen_from : (fuel : ℕ) → Memory → (s n : ℕ) → Option ℕ
strlen_from zero m s n = none
strlen_from (suc fuel) m s n =
    let rest = strlen_from fuel m s (n + 1) in if m (s + n) == 0 then some n else rest

unfoldable pub strlen : (fuel : ℕ) → Memory → (s : ℕ) → Option ℕ
unfolding strlen_from
strlen fuel m s = strlen_from fuel m s 0
