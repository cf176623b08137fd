-- ===== src/Shell.antt =====
-- user/sh.c: the lexer and the commands of the shell. A pointer into the line is the list of the characters
-- from there to the terminating zero; a token is the list of those between `q` and `eq`. The storage of the
-- commands is not modelled: malloc is taken to succeed.
pub mod Parser
use kali.Prelude.{
  ℕ, zero, suc, Bool, true, false, ◌&&◌, ◌||◌, not, List, [], ◌∷◌, ◌==◌, if◌then◌else◌,
}

abbrev pub Text : Type 0
Text = List ℕ

-- The redirections by `<`, `>` and `>>`.
pub data Redirection : Type 0 where
  read_from : Redirection
  write_to : Redirection
  append_to : Redirection

-- `mode` and `fd` of `struct redircmd`
abbrev pub mode : Redirection → ℕ
mode read_from = 0
mode write_to = 0x601
mode append_to = 0x201

abbrev pub fd : Redirection → ℕ
fd read_from = 0
fd write_to = 1
fd append_to = 1

-- `struct cmd` and those that begin with it.
pub data Cmd : Type 0 where
  exec : (argv : List Text) → Cmd
  redir : Cmd → (file : Text) → Redirection → Cmd
  pipe : (left right : Cmd) → Cmd
  list : (left right : Cmd) → Cmd
  back : Cmd → Cmd

-- " \t\r\n\v"
abbrev pub is_space : ℕ → Bool
is_space c = c == b' ' || c == 9 || c == 13 || c == 10 || c == 11

-- "<|>&;()"
abbrev pub is_symbol : ℕ → Bool
is_symbol c =
    c == b'<' || c == b'|' || c == b'>' || c == b'&' || c == b';' || c == b'(' || c == b')'

unfoldable pub skip_spaces : Text → Text
skip_spaces [] = []
skip_spaces (c ∷ cs) = if is_space c then skip_spaces cs else c ∷ cs

-- The characters up to a space or a symbol, and the rest.
unfoldable pub take_word : Text → Text × Text
take_word [] = ([], [])
take_word (c ∷ cs) =
    let (w, rest) = take_word cs in
    if is_space c || is_symbol c then ([], c ∷ cs) else (c ∷ w, rest)

-- The kind of a token as gettoken returns it, the token, and the rest of the line.
pub record Token : Type 0 where
  pub kind : ℕ
  pub text : Text
  pub rest : Text

abbrev pub token : (kind : ℕ) → (text rest : Text) → Token
token k t rest = record { kind = k; text = t; rest = skip_spaces rest }

-- The case of `>`, behind it.
unfoldable pub after_greater : Text → Token
after_greater [] = token b'>' (b'>' ∷ []) []
after_greater (c ∷ cs) =
    if c == b'>' then token b'+' (b'>' ∷ b'>' ∷ []) cs else token b'>' (b'>' ∷ []) (c ∷ cs)

-- The default case.
abbrev pub word_token : Text → Token
word_token s = let (w, rest) = take_word s in token b'a' w rest

abbrev pub is_single : ℕ → Bool
is_single c = c == b'|' || c == b'(' || c == b')' || c == b';' || c == b'&' || c == b'<'

unfoldable pub token_at : Text → Token
unfolding after_greater
token_at [] = token 0 [] []
token_at (c ∷ cs) =
    if is_single c
    then token c (c ∷ []) cs
    else if c == b'>'
    then after_greater cs
    else word_token (c ∷ cs)

unfoldable pub gettoken : Text → Token
unfolding skip_spaces take_word token_at
gettoken s = token_at (skip_spaces s)

-- Whether the line goes on with a character of `toks`, and the line without leading spaces.
abbrev pub front_in : (toks : ℕ → Bool) → Text → Bool
front_in toks [] = false
front_in toks (c ∷ cs) = toks c

unfoldable pub peek : (toks : ℕ → Bool) → Text → Bool × Text
unfolding skip_spaces
peek toks s = (front_in toks (skip_spaces s), skip_spaces s)
