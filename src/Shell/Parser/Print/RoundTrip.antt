-- ===== src/Shell/Parser/Print/RoundTrip.antt =====
-- user/sh.c: the parser reads back what was printed.
use kali.Prelude.{ℕ, zero, suc, ◌+◌, ◌≡◌, ◌≤◌, refl, ◌∙◌, List, [], ◌∷◌, ◌++◌, length, arith}
use kali.Shell.{
  Text, skip_spaces, peek, Cmd, exec, redir, pipe, list, back, Redirection, read_from, write_to,
  append_to,
}
use kali.Shell.Parser.{ok, parseredirs, parseline, no_leftovers, parsecmd}
use kali.Shell.Parser.Print.{
  print_words, print, sign, End, of_line, closing, rest, IsCmd, is_exec, is_redir, is_pipe, is_list,
  is_back,
}
use kali.Shell.Parser.Print.Words.{length_word}
use kali.Shell.Parser.Print.Parts.{
  after_cmd, lone, bar_end, block, piped, semicolon, ampersand, parseexec_words, redirs_written,
  plain_block, redirs_none,
}

-- The parentheses and semicolons within one another, and one for the line.
pub depth : Cmd → ℕ
depth (exec argv) = 1
depth (redir c f r) = suc (depth c)
depth (pipe l r) = suc (depth l + depth r)
depth (list l r) = suc (suc (depth l + depth r))
depth (back c) = suc (depth c)

parseline-print :
    {c : Cmd}
    → IsCmd c
    → (e : End) (n : ℕ) → depth c ≤ n
    → parseline n (print c (rest e)) ≡ ok (c, rest e)
unfolding depth
parseline-print (is_exec a le) e zero h = absurd (omega arith)
parseline-print (is_redir r c w) e zero h = absurd (omega arith)
parseline-print (is_pipe l r) e zero h = absurd (omega arith)
parseline-print (is_list l r) e zero h = absurd (omega arith)
parseline-print (is_back c) e zero h = absurd (omega arith)
parseline-print (is_exec {argv} a le) e (suc n) h =
    after_cmd n _ (exec argv) e
      (lone (parseline n) _ _ _ (rest e) (bar_end e) (parseexec_words (parseline n) a le e))
parseline-print (is_redir {c} {f} r w file) e (suc n) h =
    let k = sign r (f ++ (b' ' ∷ rest e)) in
    let inner = parseline-print w (closing k) n (omega arith) in
    after_cmd n _ (redir c f r) e (
      lone (parseline n) _ _ _ (rest e) (bar_end e)
        (block (parseline n) c k w inner ∙ rw (redirs_written file r e) refl))
parseline-print (is_pipe {l} {r} v w) e (suc n) h =
    let k = print r (b')' ∷ rest e) in
    let left =
      plain_block (parseline n) l (b'|' ∷ b'(' ∷ k) v
        (parseline-print v (closing (b'|' ∷ b'(' ∷ k)) n (omega arith))
        (unfold parseredirs peek skip_spaces in refl) in
    let right =
      plain_block (parseline n) r (rest e) w (parseline-print w (closing (rest e)) n (omega arith))
        (redirs_none e) in
    after_cmd n _ (pipe l r) e (
      piped (parseline n) _ _ l r k (rest e) left
        (lone (parseline n) _ _ r (rest e) (bar_end e) right))
parseline-print (is_list {l} {r} v w) e (suc zero) h = absurd (omega arith)
parseline-print (is_list {l} {r} v w) e (suc (suc n)) h =
    let k = print r (b')' ∷ rest e) in
    let left =
      plain_block (parseline (suc n)) l (b';' ∷ b'(' ∷ k) v
        (parseline-print v (closing (b';' ∷ b'(' ∷ k)) (suc n) (omega arith))
        (unfold parseredirs peek skip_spaces in refl) in
    let right = after_cmd n _ r e (
      lone (parseline n) _ _ r (rest e) (bar_end e) (
        plain_block (parseline n) r (rest e) w
          (parseline-print w (closing (rest e)) n (omega arith)) (redirs_none e))) in
    semicolon (suc n) _ l r k (rest e)
      (lone (parseline (suc n)) _ _ l _ (unfold peek skip_spaces in refl) left) right
parseline-print (is_back {c} w) e (suc n) h =
    let inner =
      plain_block (parseline n) c (b'&' ∷ rest e) w
        (parseline-print w (closing (b'&' ∷ rest e)) n (omega arith))
        (unfold parseredirs peek skip_spaces in refl) in
    ampersand n _ c e (lone (parseline n) _ _ c _ (unfold peek skip_spaces in refl) inner)

print_words_long : (ws : List Text) (k : Text) → length k ≤ length (print_words ws k)
print_words_long [] k = omega arith
print_words_long (w ∷ ws) k = omega (arith, print_words_long ws k, length_word w (print_words ws k))

sign_long : (r : Redirection) (f k : Text) → length k ≤ length (sign r (f ++ (b' ' ∷ k)))
sign_long read_from f k = omega (arith, length_word f k)
sign_long write_to f k = omega (arith, length_word f k)
sign_long append_to f k = omega (arith, length_word f k)

depth_bounds : (c : Cmd) (k : Text) → depth c + length k ≤ suc (length (print c k))
unfolding depth
depth_bounds (exec argv) k = omega (arith, print_words_long argv k)
depth_bounds (redir c f r) k =
    omega (arith, depth_bounds c (b')' ∷ sign r (f ++ (b' ' ∷ k))), sign_long r f k)
depth_bounds (pipe l r) k =
    omega
      (arith, depth_bounds l (b')' ∷ b'|' ∷ b'(' ∷ print r (b')' ∷ k)), depth_bounds r (b')' ∷ k))
depth_bounds (list l r) k =
    omega
      (arith, depth_bounds l (b')' ∷ b';' ∷ b'(' ∷ print r (b')' ∷ k)), depth_bounds r (b')' ∷ k))
depth_bounds (back c) k = omega (arith, depth_bounds c (b')' ∷ b'&' ∷ k))

-- Of a command whose arguments and files are words, at most nine arguments to each program, the text with
-- every part in parentheses is a line that parsecmd reads back as that very command.
pub parsecmd-print : {c : Cmd} → IsCmd c → parsecmd (print c []) ≡ ok c
unfolding parsecmd
parsecmd-print {c} w =
    rw (parseline-print w of_line (suc (length (print c []))) (omega (arith, depth_bounds c [])))
      (unfold no_leftovers peek skip_spaces in refl)
