-- ===== src/Shell/Parser/Total.antt =====
-- user/sh.c: the parser's loops end. Each function leaves a part of its text, and no call runs out of fuel when
-- it has more than the text is long.
use kali.Prelude.{ℕ, zero, suc, ◌+◌, ◌≤◌, ◌<◌, ◌≢◌, Bool, [], ◌∷◌, ◌++◌, length, arith}
use kali.Shell.{Text, skip_spaces, token_at, gettoken, Cmd, exec, back}
use kali.Shell.Parser.{
  Parsed, ok, no_fuel, ◌>>=◌, redirected, parseredirs, parse_redirs, arg_loop, is_redirect,
  ends_exec, close_block, is_open, is_close, is_bar, is_ampersand, is_semicolon, parseblock,
  parseexec, parsepipe, backs, parseline, no_leftovers, parsecmd,
}
use kali.Shell.Parser.Leaves.{
  Leaves, leaves, fails, second, third, Leaves-bind, Leaves-less, gettoken_shorter, after_peek,
  gettoken_part, Leaves-either,
}

parseredirs-Leaves : (n : ℕ) (s : Text) → length s < n → Leaves second (length s) (parseredirs n s)
unfolding parseredirs
parseredirs-Leaves zero s h = absurd (omega arith)
parseredirs-Leaves (suc n) s h =
    after_peek second (length s) is_redirect s _ _
      (λ c cs space here lt.
        let tok = gettoken_shorter c cs space in
        let file = gettoken_part (gettoken (c ∷ cs)).rest in
        let more = parseredirs-Leaves n (gettoken (gettoken (c ∷ cs)).rest).rest (omega arith) in
        Leaves-either second _ (Leaves-bind second second _ more (λ r le. leaves (omega arith)))
          fails)
      (leaves (omega arith)) (λ c cs space lt. leaves (omega arith))

parse_redirs-Leaves : (s : Text) → Leaves second (length s) (parse_redirs s)
parse_redirs-Leaves s = parseredirs-Leaves (suc (length s)) s (omega arith)

arg_loop-Leaves :
    (n argc : ℕ) (s : Text) → length s < n → Leaves third (length s) (arg_loop n argc s)
unfolding arg_loop
arg_loop-Leaves zero argc s h = absurd (omega arith)
arg_loop-Leaves (suc n) argc s h =
    after_peek third (length s) ends_exec s _ _ (λ c cs space here lt. leaves (omega arith))
      (unfold gettoken token_at skip_spaces in leaves {a = ([], [], [])} (omega arith))
      (λ c cs space lt.
        let tok = gettoken_shorter c cs space in
        Leaves-either third _ (leaves (omega arith)) (
          Leaves-either third _ fails (
            Leaves-bind second third _ (parse_redirs-Leaves (gettoken (c ∷ cs)).rest) (λ r le.
              Leaves-bind third third _ (arg_loop-Leaves n (argc + 1) r.1 (omega arith))
                (λ a le'. leaves (omega arith))))))

exec-Leaves :
    (k : ℕ) (s : Text)
    → length s ≤ k
    → Leaves second k (
        parse_redirs s >>= λ r.
        arg_loop (suc (length r.1)) 0 r.1 >>= λ a. ok (redirected (exec a.0) (r.0 ++ a.1), a.2))
exec-Leaves k s h = Leaves-bind second second _ (parse_redirs-Leaves s) (λ r le.
    Leaves-bind third second _ (arg_loop-Leaves (suc (length r.1)) 0 r.1 (omega arith))
      (λ a le'. leaves (omega arith)))

-- A parser of the inner line that leaves a part of each text of less than `n` characters.
module _ (line : Text → Parsed (Cmd × Text)) (n : ℕ)
    (good : (s : Text) → length s < n → Leaves second (length s) (line s)) where
  close_block-Leaves : (c : Cmd) (s : Text) → Leaves second (length s) (close_block line c s)
  unfolding close_block
  close_block-Leaves c s =
      after_peek second (length s) is_close s _ _
        (λ d ds space here lt.
          let tok = gettoken_shorter d ds space in
          Leaves-bind second second _ (parse_redirs-Leaves (gettoken (d ∷ ds)).rest)
            (λ r le. leaves (omega arith)))
        fails (λ d ds space lt. fails)

  parseblock-Leaves : (s : Text) → length s ≤ n → Leaves second (length s) (parseblock line s)
  unfolding parseblock
  parseblock-Leaves s h =
      after_peek second (length s) is_open s _ _
        (λ c cs space here lt.
          let tok = gettoken_shorter c cs space in
          Leaves-bind second second _ (good (gettoken (c ∷ cs)).rest (omega arith))
            (λ r le. Leaves-less (close_block-Leaves r.0 r.1) (omega arith)))
        fails (λ c cs space lt. fails)

  parseexec-Leaves : (s : Text) → length s ≤ n → Leaves second (length s) (parseexec line s)
  unfolding parseexec
  parseexec-Leaves s h =
      after_peek second (length s) is_open s _ _
        (λ c cs space here lt. Leaves-less (parseblock-Leaves (c ∷ cs) (omega arith)) (omega arith))
        (exec-Leaves (length s) [] (omega arith))
        (λ c cs space lt. exec-Leaves (length s) (c ∷ cs) (omega arith))

  parsepipe-Leaves :
      (k : ℕ) (s : Text)
      → length s < k
      → length s ≤ n
      → Leaves second (length s) (parsepipe line k s)
  unfolding parsepipe
  parsepipe-Leaves zero s lt h = absurd (omega arith)
  parsepipe-Leaves (suc k) s lt h = Leaves-bind second second _ (parseexec-Leaves s h) (λ r le.
      after_peek second (length s) is_bar r.1 _ _
        (λ c cs space here lt'.
          let tok = gettoken_shorter c cs space in
          Leaves-bind second second _
            (parsepipe-Leaves k (gettoken (c ∷ cs)).rest (omega arith) (omega arith))
            (λ q le'. leaves (omega arith)))
        (leaves (omega arith)) (λ c cs space lt'. leaves (omega arith)))

backs-Leaves : (n : ℕ) (c : Cmd) (s : Text) → length s < n → Leaves second (length s) (backs n c s)
unfolding backs
backs-Leaves zero c s h = absurd (omega arith)
backs-Leaves (suc n) c s h =
    after_peek second (length s) is_ampersand s _ _
      (λ d ds space here lt.
        let tok = gettoken_shorter d ds space in
        Leaves-less (backs-Leaves n (back c) (gettoken (d ∷ ds)).rest (omega arith)) (omega arith))
      (leaves (omega arith)) (λ d ds space lt. leaves (omega arith))

parseline-Leaves : (n : ℕ) (s : Text) → length s < n → Leaves second (length s) (parseline n s)
unfolding parseline
parseline-Leaves zero s h = absurd (omega arith)
parseline-Leaves (suc n) s h =
    Leaves-bind second second _
      (parsepipe-Leaves (parseline n) n (parseline-Leaves n) (suc (length s)) s (omega arith)
        (omega arith))
      (λ r le.
        Leaves-bind second second _ (backs-Leaves (suc (length r.1)) r.0 r.1 (omega arith))
          (λ b le'.
            after_peek second (length s) is_semicolon b.1 _ _
              (λ c cs space here lt.
                let tok = gettoken_shorter c cs space in
                Leaves-bind second second _
                  (parseline-Leaves n (gettoken (c ∷ cs)).rest (omega arith))
                  (λ q le''. leaves (omega arith)))
              (leaves (omega arith)) (λ c cs space lt. leaves (omega arith))))

no_leftovers_total : (c : Cmd) (p : Bool × Text) → no_leftovers c p ≢ no_fuel
unfolding no_leftovers
no_leftovers_total c (b, []) e = cc
no_leftovers_total c (b, d ∷ ds) e = cc

total-bind :
    {n : ℕ} {r : Parsed (Cmd × Text)} (f : Cmd × Text → Parsed Cmd)
    → Leaves second n r
    → ((a : Cmd × Text) → f a ≢ no_fuel)
    → (r >>= f) ≢ no_fuel
total-bind f (leaves {a} h) total e = total a e
total-bind f fails total e = cc

-- parsecmd never wants for fuel: on every text, it gives a command or stops at a syntax error.
pub parsecmd_total : (s : Text) → parsecmd s ≢ no_fuel
unfolding parsecmd
parsecmd_total s =
    total-bind _ (parseline-Leaves (suc (length s)) s (omega arith)) (λ r. no_leftovers_total r.0 _)
