-- ===== src/Disctools/Copy/Tests.antt =====
-- cp and mv of disctools.c with one source and one target: the theorem and some runs.
use iocsh_utilities.Base.{
  ℕ, ltb, ◌≡◌, refl, Bool, true, false, none, some, [], ◌∷◌, ◌++◌, Text, codes, length, take, drop,
  text_eq,
}
use iocsh_utilities.Disctools.Copy.{Streams, error_for, Names, cp_func, mv_func}
use iocsh_utilities.Disctools.Copy.Whole.{CopyLaws, cp_func-whole}

-- What is left of the source, whether it is at its end, and what the target has got.
abbrev State : Type 0
State = Text × Bool × Text

abbrev fread : State → ℕ → Text × State
fread (left, eof, got) n = (take n left, (drop n left, ltb (length left) n, got))

abbrev fwrite : State → Text → State
fwrite (left, eof, got) bytes = (left, eof, got ++ bytes)

-- A file that can be opened is called `a` or `b`; stream 2 is the source and stream 3 the target.
abbrev streams : Streams
streams = record {
  State = State;
  Stream = ℕ;
  stdin = 0;
  stdout = 1;
  open_source = λ s name. elim (text_eq name (codes "a")) [ true ↦ some (2, s) | false ↦ none ];
  open_target = λ s name. elim (text_eq name (codes "b")) [ true ↦ some (3, s) | false ↦ none ];
  fread = λ s stream n. fread s n;
  fwrite = λ s stream bytes. fwrite s bytes;
  feof = λ s stream. s.1;
  ferror = λ s stream. false;
  close = λ s stream. s;
  flush = λ s stream. s;
}

abbrev laws : CopyLaws streams 2 3
laws = record {
  pending = λ s. s.0;
  written = λ s. s.2;
  fread-data = λ s n. refl;
  fread-pending = λ s n. refl;
  fread-feof = λ s n. refl;
  fread-written = λ s n. refl;
  fwrite-pending = λ s bytes. refl;
  fwrite-feof = λ s bytes. refl;
  fwrite-written = λ s bytes. refl;
  no_read_error = λ s. refl;
  no_write_error = λ s. refl;
}

abbrev start : State
start = (codes "xyz", false, [])

cp_func-whole_example :
    (v : State) × (cp_func streams 2 (some (codes "a")) (some (codes "b")) start ≡ some (v, []))
    × (v.2 ≡ codes "xyz")
cp_func-whole_example =
    cp_func-whole streams b'a' b'b' [] [] start start start 2 3 laws refl refl refl

target_missing :
    cp_func streams 2 (some (codes "a")) (some (codes "c")) start
    ≡ some (start, error_for (some (codes "c")) ∷ [])
unfolding cp_func
target_missing = refl

-- A directory `d`; the name that was last given to a file.
abbrev names : Names
names = record {
  State = Text;
  is_dir = λ s name. text_eq name (codes "d");
  rename = λ s old new. (false, new);
}

into_directory : mv_func names (some (codes "x/f")) (some (codes "d")) [] ≡ (codes "d/x/f", [])
unfolding mv_func
into_directory = refl
