-- ===== src/UserPrintf/Tests.antt =====
-- user/printf.c: 2 ^ 32 + 7 printed by %ld.
use kali.Prelude.{◌≡◌, refl, [], ◌∷◌, arith}
use kali.Printf.{print_loop}
use kali.Printf.Format.Pieces.{numeric, long, decimal, spelled, done, next_numeric}
use kali.UserPrintf.{vprintf, print_int, fill_loop}
use kali.Printf.Format.Output.{IsOutput}
use kali.UserPrintf.Output.{IsUserText, vprintf_lem}

truncated : vprintf (λ a. []) (λ n. 4294967303) (spelled (numeric long decimal ∷ [])) ≡ b'7' ∷ []
unfolding vprintf print_int fill_loop print_loop
truncated = refl

vprintf_lem_example :
    IsOutput IsUserText
      (λ a. [])
      (λ n. 4294967303)
      0
      (numeric long decimal ∷ [])
      (vprintf (λ a. []) (λ n. 4294967303) (spelled (numeric long decimal ∷ [])))
vprintf_lem_example =
    vprintf_lem (λ a. []) (λ n. 4294967303) (λ n. omega arith) (next_numeric long decimal done)
