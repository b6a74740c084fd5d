-- ===== src/Exec/Line.antt =====
-- The command line that `execFunc` of exec.c hands to `system`: what it is, and when the buffer is not
-- big enough.
use iocsh_utilities.Base.{
  ℕ, ◌+◌, ◌-◌, ◌≤◌, ◌<◌, ◌==◌, ltb, ltb-ge, ltb-lt, if◌then◌else◌, ◌≡◌, ◌≢◌, refl, ◌∙◌, ap, Bool,
  true, false, not, Option, some, List, [], ◌∷◌, ◌++◌, append-nil, Text, codes, length,
  length-append, take_all, arith, Bool-cases, inl, inr,
}
use iocsh_utilities.Threads.Affinity.{decimal}
use iocsh_utilities.Exec.{
  add_words, written, behind, print_at, redirect, redirect_all, Status, reports, Outcome, ran,
  overrun, run_buffer, run_line, exec_func,
}
use iocsh_utilities.Exec.Words.{quoted_words, fits, refused, add_words-Built}

-- The text of a redirection.
abbrev pub redirection : Bool → Text → ℕ → Text
redirection needed operator fd = if needed then operator ++ decimal fd else []

print_at-fits :
    (line text : Text)
    → length line + length text ≤ 1023
    → print_at text (written line (length line)) ≡ written (line ++ text) (length (line ++ text))
unfolding print_at
print_at-fits line text h =
    rw
      (
        ltb-ge 1024 (length line) (omega arith),
        take_all (1023 - length line) text (omega arith),
        length-append line text,
      )
      refl

redirect-fits :
    (needed : Bool) (operator : Text) (fd : ℕ) (line : Text)
    → length line + length (redirection needed operator fd) ≤ 1023
    → redirect needed operator fd (written line (length line))
      ≡ written
          (line ++ redirection needed operator fd)
          (length (line ++ redirection needed operator fd))
unfolding redirect
redirect-fits true operator fd line h = print_at-fits line (operator ++ decimal fd) h
redirect-fits false operator fd line h = rw (append-nil line) refl

redirect-behind :
    (needed : Bool) (operator : Text) (fd : ℕ) → redirect needed operator fd behind ≡ behind
unfolding redirect print_at
redirect-behind true operator fd = refl
redirect-behind false operator fd = refl

print_at-twice :
    (line text next : Text)
    → 1024 < length line + length text
    → print_at next (print_at text (written line (length line))) ≡ behind
unfolding print_at
print_at-twice line text next h = elim (Bool-cases (ltb 1024 (length line))) [
  | inl e ↦ rw e refl
  | inr e ↦ rw (e, ltb-lt 1024 (length line + length text) h) refl
]

module _ (in_fd out_fd err_fd : ℕ) where
  abbrev pub with_redirections : Text → Text
  with_redirections line =
      ((line ++ redirection (not (in_fd == 0)) (codes " <&") in_fd)
        ++ redirection (not (out_fd == 1)) (codes " >&") out_fd)
      ++ redirection (not (err_fd == 2)) (codes " 2>&") err_fd

  redirect_all-fits :
      (line : Text)
      → length (with_redirections line) ≤ 1023
      → redirect_all in_fd out_fd err_fd line
        ≡ written (with_redirections line) (length (with_redirections line))
  unfolding redirect_all
  redirect_all-fits line h =
      let r = redirection (not (in_fd == 0)) (codes " <&") in_fd in
      let s = redirection (not (out_fd == 1)) (codes " >&") out_fd in
      let t = redirection (not (err_fd == 2)) (codes " 2>&") err_fd in
      let a = length-append line r in
      let b = length-append (line ++ r) s in
      let c = length-append ((line ++ r) ++ s) t in
      ap
        (λ x.
          redirect (not (err_fd == 2)) (codes " 2>&") err_fd
            (redirect (not (out_fd == 1)) (codes " >&") out_fd x))
        (redirect-fits (not (in_fd == 0)) (codes " <&") in_fd line (omega (arith, a, b, c)))
      ∙ ap (redirect (not (err_fd == 2)) (codes " 2>&") err_fd)
          (redirect-fits (not (out_fd == 1)) (codes " >&") out_fd (line ++ r) (omega (arith, b, c)))
      ∙ redirect-fits (not (err_fd == 2)) (codes " 2>&") err_fd ((line ++ r) ++ s)
          (omega (arith, c))

  with_redirections-longer : (line : Text) → length line ≤ length (with_redirections line)
  with_redirections-longer line =
      let r = redirection (not (in_fd == 0)) (codes " <&") in_fd in
      let s = redirection (not (out_fd == 1)) (codes " >&") out_fd in
      let t = redirection (not (err_fd == 2)) (codes " 2>&") err_fd in
      omega (
        arith,
        length-append line r,
        length-append (line ++ r) s,
        length-append ((line ++ r) ++ s) t,
      )

  redirect_all-behind :
      (line : Text)
      → in_fd ≢ 0
      → out_fd ≢ 1
      → 1024 < length line + length (codes " <&" ++ decimal in_fd)
      → redirect_all in_fd out_fd err_fd line ≡ behind
  unfolding redirect_all
  redirect_all-behind line i o h =
      let in_true : not (in_fd == 0) ≡ true = ground arith in
      let out_true : not (out_fd == 1) ≡ true = ground arith in
      rw (in_true, out_true)
        (ap (redirect (not (err_fd == 2)) (codes " 2>&") err_fd)
            (print_at-twice line (codes " <&" ++ decimal in_fd) (codes " >&" ++ decimal out_fd) h)
          ∙ redirect-behind (not (err_fd == 2)) (codes " 2>&") err_fd)

  module _ (system : Text → Status) (shell : Option Text) (w : Text) (words : List Text) where
    abbrev exec_words : Outcome
    exec_words = exec_func system in_fd out_fd err_fd shell (w ∷ words)

    exec_func-words : exec_words ≡ run_line system in_fd out_fd err_fd (add_words [] (w ∷ words))
    unfolding exec_func
    exec_func-words = refl

    run_line-buffer :
        (line : Text)
        → run_line system in_fd out_fd err_fd (some line)
          ≡ run_buffer system (redirect_all in_fd out_fd err_fd line)
    unfolding run_line
    run_line-buffer line = refl

    run_buffer-written :
        (line : Text)
        → run_buffer system (written line (length line)) ≡ ran line (reports (system line))
    unfolding run_buffer
    run_buffer-written line = refl

    run_buffer-behind : run_buffer system behind ≡ overrun
    unfolding run_buffer
    run_buffer-behind = refl

    add_words-fits :
        length (with_redirections (quoted_words [] (w ∷ words))) ≤ 1022
        → add_words [] (w ∷ words) ≡ some (quoted_words [] (w ∷ words))
    add_words-fits h = elim (add_words-Built [] (w ∷ words) (omega arith)) [
      | fits e k ↦ e
      | refused e k ↦
          absurd (omega (arith, with_redirections-longer (quoted_words [] (w ∷ words)), h))
    ]

    -- Where the quoted words of a command and the redirections that the file descriptors ask for have
    -- at most 1022 bytes together, `execFunc` runs `system` on just that line.
    pub exec_func-with_redirections :
        length (with_redirections (quoted_words [] (w ∷ words))) ≤ 1022
        → exec_words
          ≡ ran
              (with_redirections (quoted_words [] (w ∷ words)))
              (reports (system (with_redirections (quoted_words [] (w ∷ words)))))
    exec_func-with_redirections h =
        let line = quoted_words [] (w ∷ words) in
        exec_func-words
        ∙ ap (run_line system in_fd out_fd err_fd) (add_words-fits h)
        ∙ run_line-buffer line
        ∙ ap (run_buffer system) (redirect_all-fits line (omega arith))
        ∙ run_buffer-written (with_redirections line)

    -- Where the words fit into the buffer, but the first two redirections are needed and the first one
    -- goes beyond byte 1024, the second one is printed behind the end of the buffer.
    pub exec_func-overrun :
        (line : Text)
        → add_words [] (w ∷ words) ≡ some line
        → in_fd ≢ 0
        → out_fd ≢ 1
        → 1024 < length line + length (codes " <&" ++ decimal in_fd)
        → exec_words ≡ overrun
    exec_func-overrun line e i o h =
        exec_func-words
        ∙ ap (run_line system in_fd out_fd err_fd) e
        ∙ run_line-buffer line
        ∙ ap (run_buffer system) (redirect_all-behind line i o h)
        ∙ run_buffer-behind
