-- ===== src/Disctools/Copy/Whole.antt =====
-- That cp in disctools.c copies the whole source.
use iocsh_utilities.Base.{
  ℕ, zero, suc, ◌+◌, ◌-◌, ◌*◌, ◌/◌, ◌≤◌, ◌<◌, ltb, ltb→lt, ltb-false, ◌≡◌, refl, ap, ap₂, ltb-lt,
  ◌∙◌, true, false, Option, some, [], ◌∷◌, ◌++◌, append_assoc, Text, length, take, drop, take_all,
  arith, Bool-cases, inl, inr,
}
use iocsh_utilities.Disctools.Copy.{Streams, copy_loop, write_chunk, cp_func}

-- What the C library promises of two streams without errors that are not the same: `pending` is what
-- is still to be read from the source and `written` what the target has got. A stream is at its end
-- once it could not give all bytes that were asked for.
pub record CopyLaws (streams : Streams) (source target : streams.Stream) : Type 0 where
  pub pending : streams.State → Text
  pub written : streams.State → Text
  pub fread-data : (s : streams.State) (n : ℕ) → (streams.fread s source n).0 ≡ take n (pending s)
  pub fread-pending :
      (s : streams.State) (n : ℕ) → pending (streams.fread s source n).1 ≡ drop n (pending s)
  pub fread-feof :
      (s : streams.State) (n : ℕ)
      → streams.feof (streams.fread s source n).1 source ≡ ltb (length (pending s)) n
  pub fread-written : (s : streams.State) (n : ℕ) → written (streams.fread s source n).1 ≡ written s
  pub fwrite-pending :
      (s : streams.State) (bytes : Text) → pending (streams.fwrite s target bytes) ≡ pending s
  pub fwrite-feof :
      (s : streams.State) (bytes : Text)
      → streams.feof (streams.fwrite s target bytes) source ≡ streams.feof s source
  pub fwrite-written :
      (s : streams.State) (bytes : Text)
      → written (streams.fwrite s target bytes) ≡ written s ++ bytes
  pub no_read_error : (s : streams.State) → streams.ferror s source ≡ false
  pub no_write_error : (s : streams.State) → streams.ferror s target ≡ false

length-drop : (n : ℕ) (s : Text) → length (drop n s) ≡ length s - n
length-drop zero s = omega arith
length-drop (suc n) [] = omega arith
length-drop (suc n) (c ∷ s) = omega (arith, length-drop n s)

take-drop : (n : ℕ) (s : Text) → take n s ++ drop n s ≡ s
take-drop zero s = refl
take-drop (suc n) [] = refl
take-drop (suc n) (c ∷ s) = ap (λ r. c ∷ r) (take-drop n s)

module _ (streams : Streams) (source target : streams.Stream)
    (laws : CopyLaws streams source target) (sourcename targetname : Option Text) where
  -- The state after one round.
  abbrev next : streams.State → streams.State
  next s = streams.fwrite (streams.fread s source 256).1 target (streams.fread s source 256).0

  next-written :
      (s : streams.State) → laws.written (next s) ≡ laws.written s ++ take 256 (laws.pending s)
  next-written s =
      laws.fwrite-written (streams.fread s source 256).1 (streams.fread s source 256).0
      ∙ ap₂ (λ x y. x ++ y) (laws.fread-written s 256) (laws.fread-data s 256)

  next-pending : (s : streams.State) → laws.pending (next s) ≡ drop 256 (laws.pending s)
  next-pending s =
      laws.fwrite-pending (streams.fread s source 256).1 (streams.fread s source 256).0
      ∙ laws.fread-pending s 256

  rest-lt :
      (s : streams.State) (rounds : ℕ)
      → length (laws.pending s) < 256 * suc (suc rounds)
      → 256 ≤ length (laws.pending s)
      → length (laws.pending (next s)) < 256 * suc rounds
  rest-lt s rounds l m =
      let e = ap length (next-pending s) ∙ length-drop 256 (laws.pending s) in omega arith

  next-feof : (s : streams.State) → streams.feof (next s) source ≡ ltb (length (laws.pending s)) 256
  next-feof s =
      laws.fwrite-feof (streams.fread s source 256).1 (streams.fread s source 256).0
      ∙ laws.fread-feof s 256

  copy_loop-end :
      (fuel : ℕ) (s : streams.State)
      → streams.feof s source ≡ true
      → copy_loop streams (suc fuel) sourcename targetname source target s ≡ some (s, [])
  unfolding copy_loop
  copy_loop-end fuel s h = rw h refl

  copy_loop-next :
      (fuel : ℕ) (s : streams.State)
      → streams.feof s source ≡ false
      → copy_loop streams (suc fuel) sourcename targetname source target s
        ≡ copy_loop streams fuel sourcename targetname source target (next s)
  unfolding copy_loop write_chunk
  copy_loop-next fuel s h =
      rw (h, laws.no_read_error (streams.fread s source 256).1, laws.no_write_error (next s)) refl

  Copied : ℕ → streams.State → Type 0
  Copied fuel s =
      (t : streams.State) × (copy_loop streams fuel sourcename targetname source target s
        ≡ some (t, []))
      × (laws.written t ≡ laws.written s ++ laws.pending s)

  -- The last round ends the stream.
  copy_loop-last :
      (fuel : ℕ) (s : streams.State)
      → streams.feof s source ≡ false
      → length (laws.pending s) < 256
      → Copied (suc (suc fuel)) s
  unfolding Copied
  copy_loop-last fuel s h l = (
    next s,
    copy_loop-next (suc fuel) s h
        ∙ copy_loop-end fuel (next s) (next-feof s ∙ ltb-lt (length (laws.pending s)) 256 l),
    next-written s ∙ ap (λ x. laws.written s ++ x) (take_all 256 (laws.pending s) (omega arith)),
  )

  copy_loop-whole :
      (rounds : ℕ) (s : streams.State)
      → streams.feof s source ≡ false
      → length (laws.pending s) < 256 * suc rounds
      → Copied (suc (suc rounds)) s
  unfolding Copied
  copy_loop-whole zero s h l = copy_loop-last zero s h (omega arith)
  copy_loop-whole (suc rounds) s h l = elim (Bool-cases (ltb (length (laws.pending s)) 256)) [
    | inl e ↦ copy_loop-last (suc rounds) s h (ltb→lt (length (laws.pending s)) 256 e)
    | inr e ↦
        let (t, e', w) =
          copy_loop-whole rounds (next s) (next-feof s ∙ e)
            (rest-lt s rounds l (ltb-false (length (laws.pending s)) 256 e)) in
        (
          t,
          copy_loop-next (suc (suc rounds)) s h ∙ e',
          w
              ∙ ap₂ (λ x y. x ++ y) (next-written s) (next-pending s)
              ∙ append_assoc (laws.written s) (take 256 (laws.pending s))
                  (drop 256 (laws.pending s))
              ∙ ap (λ x. laws.written s ++ x) (take-drop 256 (laws.pending s)),
        )
  ]

-- Where cp can open its two files, the streams have no errors and the source is not at its end, cp
-- ends after a round for each 256 bytes and two, prints no error, closes both, and the target has got
-- all bytes of the source behind its own.
pub cp_func-whole :
    (streams : Streams) (c d : ℕ) (sourcename targetname : Text) (s t u : streams.State)
    (source target : streams.Stream) (laws : CopyLaws streams source target)
    → streams.open_source s (c ∷ sourcename) ≡ some (source, t)
    → streams.open_target t (d ∷ targetname) ≡ some (target, u)
    → streams.feof u source ≡ false
    → (v : streams.State) × (cp_func streams
          (length (laws.pending u) / 256 + 2)
          (some (c ∷ sourcename))
          (some (d ∷ targetname))
          s
        ≡ some (streams.close (streams.close v source) target, []))
      × (laws.written v ≡ laws.written u ++ laws.pending u)
unfolding cp_func Copied
cp_func-whole streams c d sourcename targetname s t u source target laws h k e =
    let rounds = length (laws.pending u) / 256 in
    let fuel_eq : rounds + 2 ≡ suc (suc rounds) = omega arith in
    let (v, run, w) =
      copy_loop-whole streams source target laws (some (c ∷ sourcename)) (some (d ∷ targetname))
        rounds u e (omega arith) in
    (v, rw (cp_func, h, k, fuel_eq, run) refl, w)
