-- ===== src/Shell/Parser/Print/Words.antt =====
-- The lexer and the loops of the parser on printed words.
use kali.Prelude.{
  ℕ, zero, suc, ◌+◌, ◌≡◌, ◌≤◌, ◌<◌, refl, true, false, List, [], ◌∷◌, ◌++◌, ◌==◌, length, arith,
}
use kali.Shell.{
  Text, is_space, is_symbol, skip_spaces, take_word, token, token_at, is_single, gettoken, peek,
}
use kali.Shell.Parser.{ok, parseredirs, parse_redirs, arg_loop, is_redirect, ends_exec, is_open}
use kali.Shell.Parser.Print.{
  print_words, End, of_line, closing, rest, is_plain, IsPlain, none_left, plain, IsWord, word,
  AreWords, no_words, words,
}

-- A character of a word
pub plain_space : (c : ℕ) → is_plain c ≡ true → is_space c ≡ false
plain_space c h = ground arith

plain_symbol : (c : ℕ) → is_plain c ≡ true → is_symbol c ≡ false
plain_symbol c h = ground arith

plain_redirect : (c : ℕ) → is_plain c ≡ true → is_redirect c ≡ false
plain_redirect c h = ground arith

plain_ends : (c : ℕ) → is_plain c ≡ true → ends_exec c ≡ false
plain_ends c h = ground arith

plain_single : (c : ℕ) → is_plain c ≡ true → is_single c ≡ false
plain_single c h = ground arith

pub plain_greater : (c : ℕ) → is_plain c ≡ true → (c == b'>') ≡ false
plain_greater c h = ground arith

pub plain_open : (c : ℕ) → is_plain c ≡ true → is_open c ≡ false
plain_open c h = ground arith

take_word_lem : {w : Text} → IsPlain w → (s : Text) → take_word (w ++ (b' ' ∷ s)) ≡ (w, b' ' ∷ s)
unfolding take_word
take_word_lem none_left s = refl
take_word_lem (plain {c} {cs} h p) s =
    rw (take_word_lem p s, plain_space c h, plain_symbol c h) refl

pub gettoken_word : {w : Text} → IsWord w → (s : Text) → gettoken (w ++ (b' ' ∷ s)) ≡ token b'a' w s
unfolding gettoken skip_spaces token_at
gettoken_word (word {c} {cs} h p) s =
    rw
      (
        plain_space c h,
        plain_symbol c h,
        plain_single c h,
        plain_greater c h,
        take_word_lem p s,
        plain_space c h,
      )
      refl

pub skip_words :
    {ws : List Text}
    → AreWords ws
    → (e : End) → skip_spaces (print_words ws (rest e)) ≡ print_words ws (rest e)
unfolding skip_spaces
skip_words no_words of_line = refl
skip_words no_words (closing k) = refl
skip_words (words (word {c} h p) t) e = rw (plain_space c h) refl

pub redirs_words :
    {ws : List Text}
    → AreWords ws
    → (e : End) → parse_redirs (print_words ws (rest e)) ≡ ok ([], print_words ws (rest e))
unfolding parseredirs peek skip_spaces
redirs_words no_words of_line = refl
redirs_words no_words (closing k) = refl
redirs_words (words (word {c} h p) t) e = rw (plain_space c h, plain_redirect c h) refl

pub length_word : (w s : Text) → length s < length (w ++ (b' ' ∷ s))
length_word [] s = omega arith
length_word (c ∷ w) s = omega (arith, length_word w s)

pub length_words : (ws : List Text) (k : Text) → length ws ≤ length (print_words ws k)
length_words [] k = omega arith
length_words (w ∷ ws) k = omega (arith, length_words ws k, length_word w (print_words ws k))

peek_words :
    {w : Text} → IsWord w → (s : Text) → peek ends_exec (w ++ (b' ' ∷ s)) ≡ (false, w ++ (b' ' ∷ s))
unfolding peek skip_spaces
peek_words (word {c} h p) s = rw (plain_space c h, plain_ends c h) refl

pub arg_loop_words :
    {ws : List Text}
    → AreWords ws
    → (e : End) (n argc : ℕ) → length ws < n
    → argc + length ws ≤ 9
    → arg_loop n argc (print_words ws (rest e)) ≡ ok (ws, [], rest e)
unfolding arg_loop
arg_loop_words a e zero argc lt le = absurd (omega arith)
arg_loop_words no_words of_line (suc n) argc lt le =
    unfold peek gettoken skip_spaces token_at in refl
arg_loop_words no_words (closing k) (suc n) argc lt le = unfold peek skip_spaces in refl
arg_loop_words (words {w} {ws} h t) e (suc n) argc lt le =
    rw
      (
        peek_words h (print_words ws (rest e)),
        gettoken_word h (print_words ws (rest e)),
        skip_words t e,
        redirs_words t e,
        arg_loop_words t e n (argc + 1) (omega arith) (omega arith),
      )
      (ground arith)

pub open_words :
    {ws : List Text}
    → AreWords ws
    → (e : End) → peek is_open (print_words ws (rest e)) ≡ (false, print_words ws (rest e))
unfolding peek skip_spaces
open_words no_words of_line = refl
open_words no_words (closing k) = refl
open_words (words (word {c} h p) t) e = rw (plain_space c h, plain_open c h) refl

pub skip_word : {w : Text} → IsWord w → (s : Text) → skip_spaces (w ++ s) ≡ w ++ s
unfolding skip_spaces
skip_word (word {c} h p) s = rw (plain_space c h) refl
