-- ===== src/Grep.antt =====
-- user/grep.c: the matcher. A string is the list of its characters before the terminating zero, so
-- that moving a pointer by one takes the tail.
pub mod Matches
pub mod Lines
mod Tests
use kali.Prelude.{ℕ, Bool, true, false, List, [], ◌∷◌, ◌||◌, ◌==◌, if◌then◌else◌}

-- matchstar; `here` is matchhere of the expression behind the star.
pub matchstar : (here : List ℕ → Bool) → (c : ℕ) → List ℕ → Bool
matchstar here c [] = here []
matchstar here c (t ∷ ts) =
    let rest = matchstar here c ts in
    if here (t ∷ ts) then true else if t == c || c == 46 then rest else false

-- `*text == '\0'`
abbrev is_end : List ℕ → Bool
is_end [] = true
is_end (t ∷ ts) = false

-- The test of one character; `next` is matchhere of the expression behind it.
pub match_one : (c : ℕ) → (next : List ℕ → Bool) → List ℕ → Bool
match_one c next [] = false
match_one c next (t ∷ ts) = if c == 46 || c == t then next ts else false

-- 42 is the star and 36 the dollar sign.
pub matchhere : List ℕ → List ℕ → Bool
unfolding matchstar match_one
matchhere [] text = true
matchhere (c ∷ []) text = if c == 36 then is_end text else match_one c (λ _. true) text
matchhere (c ∷ d ∷ re) text =
    if d == 42 then matchstar (matchhere re) c text else match_one c (matchhere (d ∷ re)) text

-- The loop of match.
pub match_loop : (re text : List ℕ) → Bool
match_loop re [] = matchhere re []
match_loop re (t ∷ ts) = if matchhere re (t ∷ ts) then true else match_loop re ts

-- 94 is the caret.
pub match : (re text : List ℕ) → Bool
match [] text = match_loop [] text
match (c ∷ re) text = if c == 94 then matchhere re text else match_loop (c ∷ re) text
