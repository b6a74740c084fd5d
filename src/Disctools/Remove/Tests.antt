-- ===== src/Disctools/Remove/Tests.antt =====
-- rm of disctools.c on a disk with the directory `d` and the file `d/f`: the theorems and some runs.
use iocsh_utilities.Base.{
  ◌<◌, if◌then◌else◌, ◌≡◌, refl, ap, Bool, true, false, not, ◌&&◌, some, List, [], ◌∷◌, All, Text,
  codes, has_byte, text_eq, text_eq→≡, arith, Bool-cases, inl, inr,
}
use iocsh_utilities.Disctools.Remove.{
  Disk, Unlinked, removed, missing, is_directory, unknown_option, error_for, rm_func,
}
use iocsh_utilities.Disctools.Remove.Words.{rm_func-words}
use iocsh_utilities.Disctools.Remove.Depth.{Deep, slashes, PathLaws, rm_func-ends}
use iocsh_utilities.Disctools.Remove.Files.{rm_func-keeps}

-- Whether the directory is there, and the file.
abbrev State : Type 0
State = Bool × Bool

abbrev found : State → Text → List Text
found (d, f) p = if text_eq p (codes "d/*") then (if f then codes "d/f" ∷ [] else []) else p ∷ []

abbrev gone : Bool → State → State → Unlinked × State
gone b s u = if b then (removed, s) else (missing, u)

abbrev unlink : State → Text → Unlinked × State
unlink (d, f) name =
    if text_eq name (codes "d")
    then (if d then is_directory else missing, (d, f))
    else gone (f && text_eq name (codes "d/f")) (d, false) (d, f)

abbrev rmdir : State → Text → Bool × State
rmdir (d, f) name =
    if text_eq name (codes "d") && (d && not f) then (true, (false, f)) else (false, (d, f))

abbrev disk : Disk
disk = record { State = State; glob = λ s p. (found s p, []); unlink = unlink; rmdir = rmdir }

inside-Deep : (f : Bool) → All (Deep 1) (if f then codes "d/f" ∷ [] else [])
inside-Deep true = ((omega arith, refl), tt)
inside-Deep false = tt

other-unlinked : (b : Bool) (s u t : State) → gone b s u ≡ (is_directory, t) → ⊥
other-unlinked true s u t h = ground (arith, ap (λ x. x.0) h)
other-unlinked false s u t h = ground (arith, ap (λ x. x.0) h)

found-Deep : (s : State) (p : Text) → has_byte b'{' p ≡ false → All (Deep (slashes p)) (found s p)
found-Deep (d, f) p h = elim (Bool-cases (text_eq p (codes "d/*"))) [
  | inl e ↦ rw (text_eq→≡ p (codes "d/*") e) (inside-Deep f)
  | inr e ↦ rw e ((omega arith, h), tt)
]

unlink-short : (s t : State) (name : Text) → unlink s name ≡ (is_directory, t) → slashes name < 2
unlink-short (d, f) t name h = elim (Bool-cases (text_eq name (codes "d"))) [
  | inl e ↦ rw (text_eq→≡ name (codes "d") e) (omega arith)
  | inr e ↦
      absurd (other-unlinked (f && text_eq name (codes "d/f")) (d, false) (d, f) t (rw e at h))
]

laws : PathLaws disk 2
laws = record { glob-deep = found-Deep; unlink-short = unlink-short }

recursive : rm_func disk 3 (codes "-r" ∷ codes "d" ∷ []) (true, true) ≡ some ((false, false), [])
unfolding rm_func
recursive = refl

rm_func-ends_example :
    (t : State) × (out : _) × (rm_func disk 3 (codes "-rx" ∷ codes "d" ∷ []) (true, true)
      ≡ some (t, out))
rm_func-ends_example =
    rm_func-ends disk 2 laws (codes "-rx" ∷ codes "d" ∷ []) (true, true) (refl, (refl, tt))

directory-kept : (s : State) (name : Text) → s.0 ≡ true → (unlink s name).1.0 ≡ true
directory-kept (d, f) name h = elim (Bool-cases (text_eq name (codes "d"))) [
  | inl e ↦ rw e h
  | inr e ↦ elim (Bool-cases (f && text_eq name (codes "d/f"))) [
    | inl e' ↦ rw (e, e') h
    | inr e' ↦ rw (e, e') h
  ]
]

rm_func-keeps_example :
    ((t : State) × (out : _) × (rm_func disk 1
          (codes "-f" ∷ codes "d" ∷ codes "d/f" ∷ [])
          (true, true)
        ≡ some (t, out))
      × (t.0 ≡ true))
    × ((t : State) × (out : _) × (rm_func disk 1
            (codes "-f" ∷ codes "d" ∷ codes "d/f" ∷ codes "--" ∷ codes "-r" ∷ [])
            (true, true)
          ≡ some (t, out))
        × (t.0 ≡ true))
rm_func-keeps_example =
    rm_func-keeps disk (λ s. s.0 ≡ true) directory-kept (codes "-f" ∷ codes "d" ∷ codes "d/f" ∷ [])
      (codes "-r" ∷ []) (true, true) refl refl refl

-- Behind `--` an operand may begin with a dash.
rm_func-words_example :
    (rm_func disk 3 (codes "-rq" ∷ codes "d" ∷ []) (true, true)
      ≡ some ((false, false), unknown_option b'q' ∷ []))
    × (rm_func disk 3 (codes "-rq" ∷ codes "d" ∷ codes "--" ∷ codes "-f" ∷ []) (true, true)
        ≡ some ((false, false), unknown_option b'q' ∷ error_for (codes "-f") ∷ []))
unfolding rm_func
rm_func-words_example =
    rm_func-words disk 3 (codes "-rq" ∷ codes "d" ∷ []) (codes "-f" ∷ []) (true, true) refl
