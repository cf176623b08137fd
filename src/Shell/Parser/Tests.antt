-- ===== src/Shell/Parser/Tests.antt =====
-- user/sh.c: lines parsed, and commands printed and parsed again.
use kali.Prelude.{◌≡◌, ◌≢◌, refl, [], ◌∷◌, arith}
use kali.Shell.{
  Text, read_from, write_to, append_to, Cmd, exec, redir, pipe, list, back, gettoken, token_at,
  peek,
}
use kali.Shell.Parser.{
  ok, syntax, no_fuel, parseredirs, arg_loop, close_block, parseblock, parseexec, parsepipe, backs,
  parseline, no_leftovers, parsecmd,
}
use kali.Shell.Parser.Total.{parsecmd_total}
use kali.Shell.Parser.Print.{
  print, none_left, plain, word, no_words, words, IsCmd, is_exec, is_redir, is_list, is_back,
}
use kali.Shell.Parser.Print.RoundTrip.{parsecmd-print}

abbrev a : Text
a = b'a' ∷ []

abbrev bc : Text
bc = b'b' ∷ b'c' ∷ []

-- "a<bc|bc>>a& "
abbrev line : Text
line = b'a' ∷ b'<' ∷ b'b' ∷ b'c' ∷ b'|' ∷ b'b' ∷ b'c' ∷ b'>' ∷ b'>' ∷ b'a' ∷ b'&' ∷ b' ' ∷ []

parsed :
    parsecmd line
    ≡ ok (back (pipe (redir (exec (a ∷ [])) bc read_from) (redir (exec (bc ∷ [])) a append_to)))
unfolding parsecmd parseline parsepipe parseexec backs parseblock close_block arg_loop parseredirs
    gettoken peek no_leftovers token_at
parsed = refl

-- A file is missing.
refused : parsecmd (b'a' ∷ b'>' ∷ b'|' ∷ []) ≡ syntax
unfolding parsecmd parseline parsepipe parseexec backs parseblock close_block arg_loop parseredirs
    gettoken peek no_leftovers token_at
refused = refl

abbrev job : Cmd
job = list (redir (exec (a ∷ bc ∷ [])) bc write_to) (back (exec []))

job-IsCmd : IsCmd job
job-IsCmd =
    let a_plain = plain refl none_left in
    is_list
      (is_redir write_to
        (is_exec (words (word refl none_left) (words (word refl a_plain) no_words)) (omega arith))
        (word refl a_plain))
      (is_back (is_exec no_words (omega arith)))

parsecmd-print_example : parsecmd (print job []) ≡ ok job
parsecmd-print_example = parsecmd-print job-IsCmd

parsecmd_total_example : parsecmd line ≢ no_fuel
parsecmd_total_example = parsecmd_total line
