-- ===== src/Glob/Decides.antt =====
-- `match` ends within its fuel, reads through no bad pointer, and decides `Matches`.
use iocsh_utilities.Base.{
  ℕ, zero, suc, ◌+◌, ◌*◌, ◌≤◌, ◌<◌, ◌==◌, ◌≡◌, refl, ◌↔◌, Bool, true, false, none, some, [], ◌∷◌,
  Text, length, arith, Bool-cases, inl, inr,
}
use iocsh_utilities.Glob.{
  star, fits, Outcome, answer, skip_plain, only_stars, advance, Round, resume, enter_star, scan,
  after_plain, match,
}
use iocsh_utilities.Glob.Relation.{
  Matches, byte, skip, more, byte_inv, star_inv, star_nil, two_stars, drop_byte, only_stars_iff,
  star_any, lone_star, no_fit,
}

-- The run ended with an answer, which is the right one for the question `G`.
pub data Says (G : Type 0) (r : Outcome) : Type 0 where
  says : (b : Bool) → r ≡ answer b → (b ≡ true) ↔ G → Says G r

-- `G` is the question that the loop has to answer; every pattern in play is shorter than `k`.
-- `star ∷ mp` is to match `saved`, the text at which the last star was met or resumed.
module _ (G : Type 0) (k : ℕ) where
  record Inv (fuel m : ℕ) (str pattern saved mp : Text) : Type 0 where
    sound : Matches pattern str → G
    greedy : G → Matches (star ∷ pattern) str
    asks : G ↔ Matches (star ∷ mp) saved
    retried : Matches mp saved → Matches pattern str
    behind : length str ≤ length saved
    room : length saved ≤ m
    mp_short : length mp < k
    pattern_short : length pattern < k
    pays : m * k + length pattern < fuel

  -- The state just behind a star, at which the pattern in play is the saved one.
  restart :
      {fuel m : ℕ} {str mp : Text}
      → G ↔ Matches (star ∷ mp) str
      → length str ≤ m
      → length mp < k
      → m * k + length mp < fuel
      → Inv fuel m str mp str mp
  restart q r s p = record {
    sound = λ d. q.1 (skip refl d);
    greedy = q.0;
    asks = q;
    retried = λ d. d;
    behind = omega arith;
    room = r;
    mp_short = s;
    pattern_short = s;
    pays = p;
  }

  past_byte :
      {fuel m q c : ℕ} {str pattern saved mp : Text}
      → Inv (suc fuel) m (c ∷ str) (q ∷ pattern) saved mp
      → (q == star) ≡ false
      → fits q c ≡ true
      → Inv fuel m str pattern saved mp
  past_byte {str} i n f = record {
    sound = λ d. i.sound (byte n f d);
    greedy = λ g. drop_byte str refl n (i.greedy g);
    asks = i.asks;
    retried = λ d. (byte_inv n (i.retried d)).1;
    behind = omega arith;
    room = i.room;
    mp_short = i.mp_short;
    pattern_short = omega arith;
    pays = omega arith;
  }

  -- The saved star has to take one byte more, which pays for running over the pattern again.
  resumed :
      {fuel c x : ℕ} (m : ℕ) {str pattern saved mp : Text}
      → Inv (suc fuel) m (c ∷ str) pattern (x ∷ saved) mp
      → ¬ Matches pattern (c ∷ str)
      → (m' : ℕ) × Inv fuel m' saved mp saved mp
  resumed zero i no_match = absurd (omega arith)
  resumed (suc m) i no_match = (
    m,
    restart
        (λ g. star_inv refl (i.asks.0 g) (λ d. no_match (i.retried d)), λ d. i.asks.1 (more refl d))
        (omega arith) (omega arith) (omega arith),
  )

  resume-Says :
      {fuel c : ℕ} {str pattern : Text} (m : ℕ) (saved mp : Text) (next : Round)
      → ((m' : ℕ) (s p t q : Text) → Inv fuel m' s p t q → Says G (next s p (some q) (advance t)))
      → Inv (suc fuel) m (c ∷ str) pattern saved mp
      → ¬ Matches pattern (c ∷ str)
      → Says G (resume (some mp) (advance saved) next)
  unfolding resume advance
  resume-Says m [] mp next ih i no_match = absurd (omega arith)
  resume-Says m (x ∷ saved) mp next ih i no_match =
      let (m', j) = resumed m i no_match in ih m' saved mp saved mp j

  enter_star-Says :
      {fuel m q c : ℕ} {str saved mp : Text} (pattern : Text) (next : Round)
      → ((m' : ℕ) (s p t r : Text) → Inv fuel m' s p t r → Says G (next s p (some r) (advance t)))
      → Inv (suc fuel) m (c ∷ str) (q ∷ pattern) saved mp
      → (q == star) ≡ true
      → Says G (enter_star (c ∷ str) pattern (some str) next)
  unfolding enter_star advance
  enter_star-Says {c} {str} [] next ih i e =
      says true refl (λ _. i.sound (lone_star (c ∷ str) e), λ _. refl)
  enter_star-Says {m} {c} {str} (r ∷ pattern) next ih i e =
      ih m (c ∷ str) (r ∷ pattern) (c ∷ str) (r ∷ pattern) (
        restart
          (λ g. star_any e refl (two_stars e (i.greedy g) refl), λ d. i.sound (star_any refl e d))
          (omega arith) (omega arith) (omega arith))

  scan-Says :
      (fuel m : ℕ) (str pattern saved mp : Text)
      → Inv fuel m str pattern saved mp
      → Says G (scan fuel str pattern (some mp) (advance saved))
  unfolding scan
  scan-Says zero m str pattern saved mp i = absurd (omega arith)
  scan-Says (suc fuel) m [] pattern saved mp i =
      let (to, from) = only_stars_iff pattern in
      says (only_stars pattern) refl (λ h. i.sound (to h), λ g. from (star_nil refl (i.greedy g)))
  scan-Says (suc fuel) m (c ∷ str) [] saved mp i =
      resume-Says m saved mp (scan fuel) (scan-Says fuel) i λ d. elim d [ ]
  scan-Says (suc fuel) m (c ∷ str) (q ∷ pattern) saved mp i = elim (Bool-cases (q == star)) [
    | inl e ↦ rw e (enter_star-Says pattern (scan fuel) (scan-Says fuel) i e)
    | inr n ↦ elim (Bool-cases (fits q c)) [
      | inl f ↦ rw (n, f) (scan-Says fuel m str pattern saved mp (past_byte i n f))
      | inr u ↦ rw (n, u) (resume-Says m saved mp (scan fuel) (scan-Says fuel) i (no_fit n u))
    ]
  ]

scan_end :
    (fuel : ℕ) (pattern : Text) → Says (Matches pattern []) (scan (suc fuel) [] pattern none none)
unfolding scan
scan_end fuel pattern = says (only_stars pattern) refl (only_stars_iff pattern)

-- The second loop is entered at a star, and no star is saved then.
first_star :
    (fuel c q : ℕ) (str pattern : Text)
    → (length str + 2) * (length pattern + 2) ≤ fuel
    → (q == star) ≡ true
    → Says (Matches (q ∷ pattern) (c ∷ str)) (enter_star (c ∷ str) pattern (some str) (scan fuel))
unfolding enter_star advance
first_star fuel c q str [] h e = says true refl (λ _. lone_star (c ∷ str) e, λ _. refl)
first_star fuel c q str (r ∷ p) h e =
    scan-Says G (length p + 2) fuel (length str + 1) (c ∷ str) (r ∷ p) (c ∷ str) (r ∷ p) (
      restart G (length p + 2) (star_any e refl, star_any refl e) (omega arith) (omega arith)
        (omega arith))
  where
    G : Type 0
    G = Matches (q ∷ r ∷ p) (c ∷ str)

scan-star :
    (fuel c q : ℕ) (str pattern : Text)
    → (length str + 2) * (length pattern + 2) ≤ fuel
    → (q == star) ≡ true
    → Says (Matches (q ∷ pattern) (c ∷ str)) (scan (suc fuel) (c ∷ str) (q ∷ pattern) none none)
unfolding scan
scan-star fuel c q str pattern h e = rw e (first_star fuel c q str pattern h e)

Says-map : {G H : Type 0} {r : Outcome} → G ↔ H → Says G r → Says H r
Says-map e (says b q h) = says b q (λ t. e.0 (h.0 t), λ g. h.1 (e.1 g))

-- Before the first star the bytes have to fit one by one.
plain-Says :
    (str pattern : Text) → Says (Matches pattern str) (after_plain (skip_plain str pattern))
unfolding skip_plain after_plain
plain-Says [] pattern = scan_end _ pattern
plain-Says (c ∷ str) [] = says false refl (λ e. cc, λ d. elim d [ ])
plain-Says (c ∷ str) (q ∷ pattern) = elim (Bool-cases (q == star)) [
  | inl e ↦ rw e (scan-star _ c q str pattern (omega arith) e)
  | inr n ↦ elim (Bool-cases (fits q c)) [
    | inl f ↦ rw (n, f) (Says-map (byte n f, λ d. (byte_inv n d).1) (plain-Says str pattern))
    | inr u ↦ rw (n, u) (says false refl (λ e. cc, λ d. absurd (no_fit n u d)))
  ]
]

-- For all texts `match` ends with an answer: it needs no more rounds than its fuel, follows neither
-- a NULL pointer nor one behind the terminating NUL, and answers true exactly if the pattern
-- matches the text.
pub match-Matches :
    (str pattern : Text)
    → (b : Bool) × (match str pattern ≡ answer b) × ((b ≡ true) ↔ Matches pattern str)
unfolding match
match-Matches str pattern = elim (plain-Says str pattern) [ says b e q ↦ (b, e, q) ]
