-- ===== src/TermSig/Tests.antt =====
-- A process with two threads that run the handler of termSig.c: the theorem and a run.
use iocsh_utilities.Base.{ℕ, ◌≡◌, ◌⊎◌, refl, List, [], ◌∷◌}
use iocsh_utilities.TermSig.{
  original, term_sig_handler, signals, Handlers, term_sig_registrar, restore, restore_all, Run,
  Process, enter, restores, Reach, at_start, then_step,
}
use iocsh_utilities.TermSig.Restore.{started, Reach-restored}

abbrev own : Handlers
own = record { table = original; saved = λ i. original 0 }

-- SIGINT comes, its run restores SIGHUP, and SIGTERM comes before it goes on.
abbrev run_int : List ℕ → Run
run_int left = record { sig = 2; left = left }

abbrev run_term : Run
run_term = record { sig = 15; left = signals }

abbrev rest : List ℕ
rest = 2 ∷ 13 ∷ 14 ∷ 15 ∷ 10 ∷ 12 ∷ []

abbrev process : Handlers → List Run → Process
process h runs = record { handlers = h; runs = runs; raised = [] }

abbrev two_runs : Process
two_runs = process (restore 1 (term_sig_registrar own)) (run_term ∷ run_int rest ∷ [])

two_runs-Reach : Reach (started own) two_runs
unfolding term_sig_registrar
two_runs-Reach =
    then_step
      (then_step (then_step at_start (enter 2 refl refl)) (restores [] [] 2 1 rest refl refl))
      (enter 15 refl refl)

Reach-restored_example :
    ((i : ℕ)
      → (two_runs.handlers.table i ≡ original i) ⊎ (two_runs.handlers.table i ≡ term_sig_handler))
    × ((two_runs.raised ≡ []) ⊎ ((i : ℕ) → two_runs.handlers.table i ≡ original i))
Reach-restored_example = Reach-restored (λ i. i) own two_runs (λ i. refl) two_runs-Reach

alone : (restore_all signals (term_sig_registrar own)).table 15 ≡ original 15
unfolding restore_all term_sig_registrar
alone = refl
