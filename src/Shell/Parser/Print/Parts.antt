-- ===== src/Shell/Parser/Print/Parts.antt =====
-- user/sh.c: the parser's functions on one part of a printed line each.
use kali.Prelude.{ℕ, suc, ◌≡◌, ◌≤◌, refl, ◌∙◌, true, false, List, [], ◌∷◌, ◌++◌, length, arith}
use kali.Shell.{
  Text, skip_spaces, token, token_at, after_greater, gettoken, peek, Cmd, exec, pipe, list, back,
  Redirection, read_from, write_to, append_to,
}
use kali.Shell.Parser.{
  Parsed, ok, ◌>>=◌, redirected, parseredirs, parse_redirs, parseblock, parseexec, close_block,
  parsepipe, backs, parseline, is_bar, is_redirect, redirection,
}
use kali.Shell.Parser.Print.{
  print_words, print, sign, kind, End, of_line, closing, rest, IsWord, word, AreWords, IsCmd,
  is_exec, is_redir, is_pipe, is_list, is_back,
}
use kali.Shell.Parser.Print.Words.{
  skip_words, redirs_words, arg_loop_words, length_words, gettoken_word, plain_space, plain_greater,
  open_words, skip_word,
}

skip_cmd : {c : Cmd} → IsCmd c → (e : End) → skip_spaces (print c (rest e)) ≡ print c (rest e)
unfolding skip_spaces
skip_cmd (is_exec a le) e = skip_words a e
skip_cmd (is_redir r h f) e = refl
skip_cmd (is_pipe h g) e = refl
skip_cmd (is_list h g) e = refl
skip_cmd (is_back h) e = refl

skip_end : (e : End) → skip_spaces (rest e) ≡ rest e
unfolding skip_spaces
skip_end of_line = refl
skip_end (closing k) = refl

-- What parseline does behind a command, when it ends there.
pub after_cmd :
    (n : ℕ) (s : Text) (c : Cmd) (e : End)
    → parsepipe (parseline n) (suc (length s)) s ≡ ok (c, rest e)
    → parseline (suc n) s ≡ ok (c, rest e)
unfolding parseline
after_cmd n s c of_line h = rw h (unfold backs peek skip_spaces in refl)
after_cmd n s c (closing k) h = rw h (unfold backs peek skip_spaces in refl)

-- A command without a bar behind it.
pub lone :
    (line : Text → Parsed (Cmd × Text)) (n : ℕ) (s : Text) (c : Cmd) (k : Text)
    → peek is_bar k ≡ (false, k)
    → parseexec line s ≡ ok (c, k)
    → parsepipe line (suc n) s ≡ ok (c, k)
unfolding parsepipe
lone line n s c k no_bar h = rw (h, no_bar) refl

pub bar_end : (e : End) → peek is_bar (rest e) ≡ (false, rest e)
unfolding peek skip_spaces
bar_end of_line = refl
bar_end (closing k) = refl

-- A command in parentheses, with the redirections behind it.
pub block :
    (line : Text → Parsed (Cmd × Text)) (c : Cmd) (s : Text)
    → IsCmd c
    → line (print c (b')' ∷ s)) ≡ ok (c, b')' ∷ s)
    → parseexec line (b'(' ∷ print c (b')' ∷ s))
      ≡ (parse_redirs (skip_spaces s) >>= λ r. ok (redirected c r.0, r.1))
unfolding parseexec parseblock
block line c s w h =
    unfold peek skip_spaces gettoken token_at in
    rw (skip_cmd w (closing s), h) (unfold close_block peek skip_spaces gettoken token_at in refl)

-- One in front of a bar.
pub piped :
    (line : Text → Parsed (Cmd × Text)) (n : ℕ) (s : Text) (c d : Cmd) (k k' : Text)
    → parseexec line s ≡ ok (c, b'|' ∷ b'(' ∷ k)
    → parsepipe line n (b'(' ∷ k) ≡ ok (d, k')
    → parsepipe line (suc n) s ≡ ok (pipe c d, k')
unfolding parsepipe
piped line n s c d k k' h g = rw h (unfold peek skip_spaces gettoken token_at in rw g refl)

-- What parseline does behind a command in front of a semicolon.
pub semicolon :
    (n : ℕ) (s : Text) (c d : Cmd) (k k' : Text)
    → parsepipe (parseline n) (suc (length s)) s ≡ ok (c, b';' ∷ b'(' ∷ k)
    → parseline n (b'(' ∷ k) ≡ ok (d, k')
    → parseline (suc n) s ≡ ok (list c d, k')
unfolding parseline
semicolon n s c d k k' h g = rw h (unfold backs peek skip_spaces gettoken token_at in rw g refl)

pub ampersand :
    (n : ℕ) (s : Text) (c : Cmd) (e : End)
    → parsepipe (parseline n) (suc (length s)) s ≡ ok (c, b'&' ∷ rest e)
    → parseline (suc n) s ≡ ok (back c, rest e)
unfolding parseline
ampersand n s c of_line h = rw h (unfold backs peek skip_spaces gettoken token_at in refl)
ampersand n s c (closing k) h = rw h (unfold backs peek skip_spaces gettoken token_at in refl)

-- The end of a line stops the loop over redirections, on any fuel.
redirs_end : (n : ℕ) (e : End) → parseredirs (suc n) (rest e) ≡ ok ([], rest e)
unfolding parseredirs peek skip_spaces
redirs_end n of_line = refl
redirs_end n (closing k) = refl

sign-gettoken :
    (r : Redirection) {f : Text}
    → IsWord f
    → (k : Text)
    → (t : Text) × (gettoken (sign r (f ++ k)) ≡ record { kind = kind r; text = t; rest = f ++ k })
unfolding gettoken skip_spaces token_at after_greater
sign-gettoken read_from w k = (b'<' ∷ [], rw (skip_word w k) refl)
sign-gettoken write_to (word {c} h p) k = (b'>' ∷ [], rw (plain_greater c h, plain_space c h) refl)
sign-gettoken append_to w k = (b'>' ∷ b'>' ∷ [], rw (skip_word w k) refl)

redirection-kind : (r : Redirection) → redirection (kind r) ≡ r
redirection-kind read_from = refl
redirection-kind write_to = refl
redirection-kind append_to = refl

peek-sign : (r : Redirection) (k : Text) → peek is_redirect (sign r k) ≡ (true, sign r k)
unfolding peek skip_spaces
peek-sign read_from k = refl
peek-sign write_to k = refl
peek-sign append_to k = refl

redirs_sign :
    {f : Text}
    → IsWord f
    → (r : Redirection) (e : End) (n : ℕ)
    → parseredirs (suc (suc n)) (sign r (f ++ (b' ' ∷ rest e))) ≡ ok ((f, r) ∷ [], rest e)
unfolding parseredirs
redirs_sign {f} w r e n =
    let (t, token) = sign-gettoken r w (b' ' ∷ rest e) in
    rw
      (
        peek-sign r (f ++ (b' ' ∷ rest e)),
        token,
        gettoken_word w (rest e),
        skip_end e,
        redirs_end n e,
        redirection-kind r,
      )
      refl

pub parseexec_words :
    (line : Text → Parsed (Cmd × Text)) {ws : List Text}
    → AreWords ws
    → length ws ≤ 9
    → (e : End) → parseexec line (print_words ws (rest e)) ≡ ok (exec ws, rest e)
unfolding parseexec
parseexec_words line {ws} a le e =
    rw
      (
        open_words a e,
        redirs_words a e,
        arg_loop_words a e (suc (length (print_words ws (rest e)))) 0
            (omega (arith, length_words ws (rest e))) (omega arith),
      )
      refl

pub redirs_written :
    {f : Text}
    → IsWord f
    → (r : Redirection) (e : End)
    → parse_redirs (skip_spaces (sign r (f ++ (b' ' ∷ rest e)))) ≡ ok ((f, r) ∷ [], rest e)
unfolding skip_spaces
redirs_written {f} w read_from e = redirs_sign w read_from e (length (f ++ (b' ' ∷ rest e)))
redirs_written {f} w write_to e = redirs_sign w write_to e (length (f ++ (b' ' ∷ rest e)))
redirs_written {f} w append_to e = redirs_sign w append_to e (suc (length (f ++ (b' ' ∷ rest e))))

-- A block with nothing behind it that belongs to it.
pub plain_block :
    (line : Text → Parsed (Cmd × Text)) (c : Cmd) (k : Text)
    → IsCmd c
    → line (print c (b')' ∷ k)) ≡ ok (c, b')' ∷ k)
    → parse_redirs (skip_spaces k) ≡ ok ([], k)
    → parseexec line (b'(' ∷ print c (b')' ∷ k)) ≡ ok (c, k)
plain_block line c k w h none_here = block line c k w h ∙ rw none_here refl

pub redirs_none : (e : End) → parse_redirs (skip_spaces (rest e)) ≡ ok ([], rest e)
redirs_none e = rw (skip_end e) (redirs_end (length (rest e)) e)
