-- ===== src/Output/Tests.antt =====
-- Runs of listRecords.c and echo.c.
use iocsh_utilities.Base.{ℕ, ◌≡◌, refl, false, none, some, List, [], ◌∷◌, codes}
use iocsh_utilities.Output.{Streams, list_records, echo}

-- The standard output of the thread, and where `dbl` has written.
abbrev streams : Streams
streams = record {
  State = ℕ × List ℕ;
  Stream = ℕ;
  open_to_write = λ s name. some (3, s);
  errno = λ s. 0;
  close = λ s stream. s;
  get_thread_stdout = λ s. s.0;
  set_thread_stdout = λ s stream. (stream, s.1);
  dbl = λ s fields. (s.0, s.0 ∷ s.1);
}

into_file : list_records streams (some (codes "f")) none (1, []) ≡ (0, false, (1, 3 ∷ []))
unfolding list_records
into_file = refl

to_stdout : list_records streams none none (1, []) ≡ (0, false, (1, 1 ∷ []))
unfolding list_records
to_stdout = refl

echoes : echo (λ s. s) (some (codes "hi")) ≡ codes "hi\n"
echoes = refl
