-- ===== src/Grep/Tests.antt =====
-- user/grep.c: expressions on short texts.
use kali.Prelude.{ℕ, ◌≡◌, ◌↔◌, refl, true, false, List, [], ◌∷◌}
use kali.Grep.{match, match_loop, matchhere, matchstar, match_one}
use kali.Grep.Lines.{grep}
use kali.Grep.Lines.Selects.{selected, grep_lem}
use kali.Grep.Matches.{Finds, match_iff}

-- `b.*d$` in `abccd`, and `^b` in the same text.
abbrev text : List ℕ
text = 97 ∷ 98 ∷ 99 ∷ 99 ∷ 100 ∷ []

abbrev starred : List ℕ
starred = 98 ∷ 46 ∷ 42 ∷ 100 ∷ 36 ∷ []

found : match starred text ≡ true
unfolding match match_loop matchhere matchstar match_one
found = refl

at_start : match (94 ∷ 98 ∷ []) text ≡ false
unfolding match match_loop matchhere matchstar match_one
at_start = refl

match_iff_example : (match starred text ≡ true) ↔ Finds starred text
match_iff_example = match_iff starred text

-- "ab", "cd", and "b" without a newline, read by two bytes at a time, with the pattern "b".
abbrev short_file : List ℕ
short_file = 97 ∷ 98 ∷ 10 ∷ 99 ∷ 100 ∷ 10 ∷ 98 ∷ []

selects : selected (98 ∷ []) [] short_file ≡ 97 ∷ 98 ∷ 10 ∷ []
unfolding match match_loop matchhere matchstar match_one
selects = refl

grep_lem_example : grep (98 ∷ []) (λ i. 1) short_file ≡ selected (98 ∷ []) [] short_file
grep_lem_example = grep_lem (98 ∷ []) (λ i. 1) short_file refl
