-- ===== src/Shell/Parser.antt =====
-- user/sh.c: the parser. A panic ends the shell's child: `syntax`. The loops run on fuel, which the length of
-- the line bounds.
mod Leaves
mod Tests
pub mod Total
pub mod Print
use kali.Prelude.{
  ℕ, zero, suc, ◌+◌, Bool, true, false, not, ◌||◌, List, [], ◌∷◌, ◌++◌, ◌==◌, leb, if◌then◌else◌,
  length,
}
use kali.Shell.{
  Text, Redirection, read_from, write_to, append_to, Cmd, exec, redir, pipe, list, back, Token,
  gettoken, peek,
}

pub data Parsed (A : Type 0) : Type 0 where
  ok : A → Parsed A
  syntax : Parsed A
  no_fuel : Parsed A

infixl 5 ◌>>=◌
abbrev pub ◌>>=◌ : {A B : Type 0} → Parsed A → (A → Parsed B) → Parsed B
ok a >>= f = f a
syntax >>= f = syntax
no_fuel >>= f = no_fuel

-- What follows on a peek: for a character that it looks for, and for any other.
abbrev pub branch : {A : Type 0} → Bool × Text → (found other : Text → A) → A
branch (true, s) found other = found s
branch (false, s) found other = other s

abbrev pub max_args : ℕ
max_args = 10

abbrev pub Redirections : Type 0
Redirections = List (Text × Redirection)

-- The redirections around a command, the first one innermost.
abbrev pub redirected : Cmd → Redirections → Cmd
redirected c [] = c
redirected c ((f, r) ∷ rs) = redirected (redir c f r) rs

abbrev pub redirection : (tok : ℕ) → Redirection
redirection tok = if tok == b'<' then read_from else if tok == b'>' then write_to else append_to

abbrev pub is_redirect : ℕ → Bool
is_redirect c = c == b'<' || c == b'>'

-- parseredirs: the redirections that it puts around its command.
pub parseredirs : (fuel : ℕ) → Text → Parsed (Redirections × Text)
parseredirs zero s = no_fuel
parseredirs (suc n) s =
    branch (peek is_redirect s)
      (λ s.
        let tok = gettoken s in
        let file = gettoken tok.rest in
        let rest =
          parseredirs n file.rest >>= λ r. ok ((file.text, redirection tok.kind) ∷ r.0, r.1) in
        if file.kind == b'a' then rest else syntax)
      (λ s. ok ([], s))

abbrev pub parse_redirs : Text → Parsed (Redirections × Text)
parse_redirs s = parseredirs (suc (length s)) s

-- "|)&;"
abbrev pub ends_exec : ℕ → Bool
ends_exec c = c == b'|' || c == b')' || c == b'&' || c == b';'

-- The loop of parseexec behind `argc` arguments: the arguments and the redirections to come.
pub arg_loop : (fuel argc : ℕ) → Text → Parsed (List Text × Redirections × Text)
arg_loop zero argc s = no_fuel
arg_loop (suc n) argc s =
    branch (peek ends_exec s) (λ s. ok ([], [], s))
      (λ s.
        let tok = gettoken s in
        let rest = parse_redirs tok.rest >>= λ r.
        arg_loop n (argc + 1) r.1 >>= λ a. ok (tok.text ∷ a.0, r.0 ++ a.1, a.2) in
        if tok.kind == 0
        then ok ([], [], tok.rest)
        else if not (tok.kind == b'a') || leb max_args (argc + 1)
        then syntax
        else rest)

abbrev pub is_open : ℕ → Bool
is_open c = c == b'('

abbrev pub is_close : ℕ → Bool
is_close c = c == b')'

abbrev pub is_bar : ℕ → Bool
is_bar c = c == b'|'

abbrev pub is_ampersand : ℕ → Bool
is_ampersand c = c == b'&'

abbrev pub is_semicolon : ℕ → Bool
is_semicolon c = c == b';'

-- The functions take the parser of a line within.
module _ (line : Text → Parsed (Cmd × Text)) where
  -- parseblock behind the inner line.
  pub close_block : Cmd → Text → Parsed (Cmd × Text)
  close_block c s =
      branch (peek is_close s)
        (λ s. parse_redirs (gettoken s).rest >>= λ r. ok (redirected c r.0, r.1)) (λ s. syntax)

  pub parseblock : Text → Parsed (Cmd × Text)
  parseblock s =
      branch (peek is_open s) (λ s. line (gettoken s).rest >>= λ r. close_block r.0 r.1)
        (λ s. syntax)

  pub parseexec : Text → Parsed (Cmd × Text)
  parseexec s = branch (peek is_open s) parseblock (λ s. parse_redirs s >>= λ r.
      arg_loop (suc (length r.1)) 0 r.1 >>= λ a. ok (redirected (exec a.0) (r.0 ++ a.1), a.2))

  pub parsepipe : (fuel : ℕ) → Text → Parsed (Cmd × Text)
  parsepipe zero s = no_fuel
  parsepipe (suc n) s = parseexec s >>= λ r.
      branch (peek is_bar r.1) (λ s. parsepipe n (gettoken s).rest >>= λ q. ok (pipe r.0 q.0, q.1))
        (λ s. ok (r.0, s))

-- The loop of parseline over `&`.
pub backs : (fuel : ℕ) → Cmd → Text → Parsed (Cmd × Text)
backs zero c s = no_fuel
backs (suc n) c s =
    branch (peek is_ampersand s) (λ s. backs n (back c) (gettoken s).rest) (λ s. ok (c, s))

-- Each parenthesis and each semicolon takes one of the fuel.
pub parseline : (fuel : ℕ) → Text → Parsed (Cmd × Text)
parseline zero s = no_fuel
parseline (suc n) s = parsepipe (parseline n) (suc (length s)) s >>= λ r.
    backs (suc (length r.1)) r.0 r.1 >>= λ b.
    branch (peek is_semicolon b.1)
      (λ s. parseline n (gettoken s).rest >>= λ q. ok (list b.0 q.0, q.1)) (λ s. ok (b.0, s))

-- What is left but spaces is an error.
pub no_leftovers : Cmd → Bool × Text → Parsed Cmd
no_leftovers c (b, []) = ok c
no_leftovers c (b, d ∷ ds) = syntax

pub parsecmd : Text → Parsed Cmd
parsecmd s = parseline (suc (length s)) s >>= λ r. no_leftovers r.0 (peek (λ _. false) r.1)
