-- ===== src/Strings/Tests.antt =====
-- kernel/string.c: runs on small memories, and the theorems at concrete inputs.
use kali.Prelude.{◌+◌, ◌≡◌, refl, ◌==◌, if◌then◌else◌, pos, negsuc}
use kali.Strings.{Memory, memcmp, memmove, copy_down, safestrcpy}

-- 1, 2, 3 and so on.
abbrev ramp : Memory
ramp p = p + 1

-- "hi" at 10.
abbrev greeting : Memory
greeting p = if p == 10 then b'h' else if p == 11 then b'i' else if p == 12 then 0 else 1

overlap_up : memmove ramp 2 0 3 4 ≡ 3
unfolding memmove copy_down
overlap_up = refl

compared : memcmp ramp 0 1 2 ≡ negsuc 0
unfolding memcmp
compared = refl

cut_off : safestrcpy greeting 30 10 (pos 2) 31 ≡ 0
unfolding safestrcpy
cut_off = refl
