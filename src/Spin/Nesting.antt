-- ===== src/Spin/Nesting.antt =====
-- kernel/spinlock.c: push_off and pop_off are matched.
use kali.Prelude.{
  ◌-◌, ◌<◌, ◌≡◌, refl, ◌∙◌, ◌&&◌, true, false, Option, none, some, arith, ◌==◌, if◌then◌else◌,
}
use kali.Spin.{Cpu, push_off, pop_off}

-- A well-nested run of push_off and pop_off, each pop_off undoing the last push_off.
pub data Nested : Type 0 where
  nothing : Nested
  pair : Nested → Nested → Nested  -- push_off, the first run, pop_off, the second run

-- Such a run on a CPU; `none` is a panic of a pop_off.
pub run : Nested → Cpu → Option Cpu
unfolding push_off pop_off
run nothing c = some c
run (pair inner rest) c = elim (run inner (push_off c)) [
  | none ↦ none
  | some c' ↦ elim (pop_off c') [ none ↦ none | some c'' ↦ run rest c'' ]
]

-- Interrupts are off while a push_off is not undone.
abbrev pub IsOff : Cpu → Type 0
IsOff c = 0 < c.noff → c.intr ≡ false

-- The state of a CPU whose push_offs are all undone says nothing of what they saved.
abbrev pub Same : Cpu → Cpu → Type 0
Same c d = (d.noff ≡ c.noff) × (d.intr ≡ c.intr) × (0 < c.noff → d.intena ≡ c.intena)

pop-push : (c d : Cpu) → IsOff c → Same (push_off c) d → (e : Cpu) × (pop_off d ≡ some e) × Same c e
unfolding push_off pop_off
pop-push c d off s =
    let saved = s.2 (omega arith) in
    (
      record d { noff = d.noff - 1; intr = if (d.noff - 1 == 0) && d.intena then true else d.intr },
      ground (arith, saved),
      (ground (arith, saved), ground (arith, saved), λ h. ground (arith, saved)),
    )

push-IsOff : (c : Cpu) → IsOff (push_off c)
unfolding push_off
push-IsOff c h = refl

Same-IsOff : (c d : Cpu) → IsOff c → Same c d → IsOff d
Same-IsOff c d off s h = ground (arith, off (omega arith))

-- A well-nested run never panics, and leaves the depth and the interrupt enable bit as they were.
pub run-Same : (n : Nested) (c : Cpu) → IsOff c → (d : Cpu) × (run n c ≡ some d) × Same c d
unfolding run
run-Same nothing c off = (c, refl, (refl, refl, λ h. refl))
run-Same (pair inner rest) c off =
    let (c', ran, same) = run-Same inner (push_off c) (push-IsOff c) in
    let (c'', popped, back) = pop-push c c' off same in
    let (d, ran', same') = run-Same rest c'' (Same-IsOff c c'' off back) in
    (
      d,
      rw (ran, popped) ran',
      (same'.0 ∙ back.0, same'.1 ∙ back.1, λ h. same'.2 (omega (arith, back.0)) ∙ back.2 h),
    )
