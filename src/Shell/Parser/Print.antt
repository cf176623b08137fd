-- ===== src/Shell/Parser/Print.antt =====
-- user/sh.c: the text of a command, with every part in parentheses, and the commands that have one.
pub mod Words
mod Parts
pub mod RoundTrip
use kali.Prelude.{ℕ, suc, ◌+◌, ◌≡◌, ◌≤◌, Bool, true, not, ◌||◌, List, [], ◌∷◌, ◌++◌, ◌==◌, length}
use kali.Shell.{
  Text, Redirection, read_from, write_to, append_to, Cmd, exec, redir, pipe, list, back, is_space,
  is_symbol,
}

-- In front of `k`: words, each followed by a space.
abbrev pub print_words : List Text → (k : Text) → Text
print_words [] k = k
print_words (w ∷ ws) k = w ++ (b' ' ∷ print_words ws k)

abbrev pub sign : Redirection → (k : Text) → Text
sign read_from k = b'<' ∷ k
sign write_to k = b'>' ∷ k
sign append_to k = b'>' ∷ b'>' ∷ k

-- The token that gettoken makes of the sign.
abbrev pub kind : Redirection → ℕ
kind read_from = b'<'
kind write_to = b'>'
kind append_to = b'+'

abbrev pub print : Cmd → (k : Text) → Text
print (exec argv) k = print_words argv k
print (redir c file r) k = b'(' ∷ print c (b')' ∷ sign r (file ++ (b' ' ∷ k)))
print (pipe l r) k = b'(' ∷ print l (b')' ∷ b'|' ∷ b'(' ∷ print r (b')' ∷ k))
print (list l r) k = b'(' ∷ print l (b')' ∷ b';' ∷ b'(' ∷ print r (b')' ∷ k))
print (back c) k = b'(' ∷ print c (b')' ∷ b'&' ∷ k)

-- What ends a command: the end of the line, or a closing parenthesis.
pub data End : Type 0 where
  of_line : End
  closing : Text → End

abbrev pub rest : End → Text
rest of_line = []
rest (closing k) = b')' ∷ k

abbrev pub is_plain : ℕ → Bool
is_plain c = not (c == 0 || is_space c || is_symbol c)

pub data IsPlain : Text → Type 0 where
  none_left : IsPlain []
  plain : {c : ℕ} {cs : Text} → is_plain c ≡ true → IsPlain cs → IsPlain (c ∷ cs)

pub data IsWord : Text → Type 0 where
  word : {c : ℕ} {cs : Text} → is_plain c ≡ true → IsPlain cs → IsWord (c ∷ cs)

pub data AreWords : List Text → Type 0 where
  no_words : AreWords []
  words : {w : Text} {ws : List Text} → IsWord w → AreWords ws → AreWords (w ∷ ws)

-- The commands that a line can give: words that are not empty, and at most nine arguments.
pub data IsCmd : Cmd → Type 0 where
  is_exec : {argv : List Text} → AreWords argv → length argv ≤ 9 → IsCmd (exec argv)
  is_redir : {c : Cmd} {f : Text} (r : Redirection) → IsCmd c → IsWord f → IsCmd (redir c f r)
  is_pipe : {l r : Cmd} → IsCmd l → IsCmd r → IsCmd (pipe l r)
  is_list : {l r : Cmd} → IsCmd l → IsCmd r → IsCmd (list l r)
  is_back : {c : Cmd} → IsCmd c → IsCmd (back c)
