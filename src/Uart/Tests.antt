-- ===== src/Uart/Tests.antt =====
-- kernel/uart.c: two characters are given while the device is busy, and an interrupt sends one.
use kali.Prelude.{◌≡◌, refl, [], ◌∷◌}
use kali.Uart.{uartstart, uartputc}
use kali.Uart.Order.{State, Reach, boots, later, puts, interrupts, IsOrdered, Reach-IsOrdered}

half_sent : (s : State) × Reach s × (s.sent ≡ 104 ∷ [])
unfolding uartstart uartputc
half_sent = (
  _,
  later (later (later (boots (λ i. 0)) (puts 0 104 _ refl)) (puts 0 105 _ refl)) (interrupts 1),
  refl,
)

Reach-IsOrdered_example : IsOrdered half_sent.0
Reach-IsOrdered_example = Reach-IsOrdered half_sent.1
