-- ===== src/Cal/Room.antt =====
-- Which names fit into the buffer `clientref` of cal.c.
use iocsh_utilities.Base.{
  ℕ, zero, suc, ◌+◌, ◌≤◌, ◌<◌, ◌/◌, ◌%◌, ◌^◌, ltb, leb, leb-le, leb→le, leb-gt, ltb-lt,
  if◌then◌else◌, ◌≡◌, refl, none, some, [], ◌∷◌, ◌++◌, Text, codes, length, take, length-append,
  length-take, arith, Bool-cases, inl, inr,
}
use native.Mathlib.Nat.{pow-suc}
use iocsh_utilities.Threads.Affinity.{decimal, decimal_digits}
use iocsh_utilities.Cal.{
  Client, Protocol, udp, tcp, other_protocol, proto_name, before_dot, front_text, host_text,
  client_ref,
}

length-decimal_digits : (fuel d n : ℕ) → n < 10 ^ suc d → length (decimal_digits fuel n) ≤ suc d
unfolding decimal_digits
length-decimal_digits zero d n k = omega arith
length-decimal_digits (suc fuel) zero n k = rw (ltb-lt n 10 (omega arith)) (omega arith)
length-decimal_digits (suc fuel) (suc d) n k = elim (Bool-cases (ltb n 10)) [
  | inl e ↦ rw e (omega arith)
  | inr e ↦ rw e (
      omega (
        arith,
        length-append (decimal_digits fuel (n / 10)) ((b'0' + n % 10) ∷ []),
        length-decimal_digits fuel d (n / 10) (omega (arith, pow-suc 10 (suc d))),
      ))
]

length-decimal : (d n : ℕ) → n < 10 ^ suc d → length (decimal n) ≤ suc d
unfolding decimal
length-decimal d n k = length-decimal_digits (suc n) d n k

-- The bytes of `clientref` that are left for the host and the port, at the least.
abbrev pub room : ℕ → ℕ
room level = if leb 4 level then 9 else if leb 2 level then 49 else 62

abbrev tid_part : Client → Text
tid_part c = codes "TID " ++ (c.tid ++ (codes " (PID " ++ (decimal c.pid ++ codes ") ")))

abbrev version_part : ℕ → Client → Text
version_part major c =
    b'V'
    ∷ (decimal major
        ++ (b'.' ∷ (decimal c.minor_version ++ (b' ' ∷ (proto_name c.proto ++ (b':' ∷ []))))))

length-tid_part : (c : Client) → length c.tid ≤ 18 → c.pid < 10 ^ 10 → length (tid_part c) ≤ 40
length-tid_part c t p = omega (
  arith,
  length-decimal 9 c.pid p,
  length-append (decimal c.pid) (codes ") "),
  length-append c.tid (codes " (PID " ++ (decimal c.pid ++ codes ") ")),
)

length-proto_name : (p : Protocol) → length (proto_name p) ≡ 3
length-proto_name udp = refl
length-proto_name tcp = refl
length-proto_name other_protocol = refl

length-version_part :
    (major : ℕ) (c : Client)
    → major < 10
    → c.minor_version < 10 ^ 5
    → length (version_part major c) ≤ 13
length-version_part major c m v =
    let name = proto_name c.proto ++ (b':' ∷ []) in
    omega (
      arith,
      length-decimal 0 major m,
      length-decimal 4 c.minor_version v,
      length-proto_name c.proto,
      length-append (proto_name c.proto) (b':' ∷ []),
      length-append (decimal c.minor_version) (b' ' ∷ name),
      length-append (decimal major) (b'.' ∷ (decimal c.minor_version ++ (b' ' ∷ name))),
    )

abbrev user_part : Client → Text
user_part c = take 36 (elim c.user [ none ↦ codes "?" | some u ↦ u ]) ++ (b'@' ∷ [])

length-user_part : (c : Client) → length (user_part c) ≤ 37
length-user_part c =
    let u : Text = elim c.user [ none ↦ codes "?" | some u ↦ u ] in
    omega (arith, length-append (take 36 u) (b'@' ∷ []), length-take 36 u)

three-parts : (a b u : Text) → length (a ++ (b ++ u)) ≡ length a + (length b + length u)
three-parts a b u = omega (arith, length-append a (b ++ u), length-append b u)

length-front_text :
    (major level : ℕ) (c : Client)
    → major < 10
    → length c.tid ≤ 18
    → c.pid < 10 ^ 10
    → c.minor_version < 10 ^ 5
    → length (front_text major level c) + room level ≤ 99
unfolding front_text
length-front_text major level c m t p v = elim (Bool-cases (leb 4 level)) [
  | inl e ↦
      rw (front_text, e, leb-le 2 level (omega (arith, leb→le 4 level e)))
        (omega (
          arith,
          three-parts (tid_part c) (version_part major c) (user_part c),
          length-tid_part c t p,
          length-version_part major c m v,
          length-user_part c,
        ))
  | inr e ↦ elim (Bool-cases (leb 2 level)) [
    | inl e' ↦
        rw (front_text, e, e')
          (omega (
            arith,
            three-parts [] (version_part major c) (user_part c),
            length-version_part major c m v,
            length-user_part c,
          ))
    | inr e' ↦ rw (front_text, e, e') (omega (arith, length-user_part c))
  ]
]

length-before_dot : (s : Text) → length (before_dot s) ≤ length s
unfolding before_dot
length-before_dot [] = omega arith
length-before_dot (c ∷ s) = ground (arith, length-before_dot s)

-- Where the major version has one digit, the id of the thread at most 18 bytes, the numbers as many
-- digits as 32 or 16 bits take, and the host's name up to its first dot at most 3 bytes from level 4
-- on, 43 from level 2 on and 56 below, `clientref` holds all of its text.
pub client_ref-fits :
    (major level : ℕ) (c : Client) (host : Text)
    → major < 10
    → length c.tid ≤ 18
    → c.pid < 10 ^ 10
    → c.minor_version < 10 ^ 5
    → c.port < 10 ^ 5
    → c.host ≡ some host
    → length (before_dot host) + 6 ≤ room level
    → client_ref major level c
      ≡ some (front_text major level c ++ (before_dot host ++ (b':' ∷ decimal c.port)))
unfolding client_ref host_text
client_ref-fits major level c host m t p v q h l =
    let front = front_text major level c in
    let behind = before_dot host ++ (b':' ∷ decimal c.port) in
    let f = length-front_text major level c m t p v in
    let d : length behind ≤ room level =
      omega (
        arith,
        length-append (before_dot host) (b':' ∷ decimal c.port),
        length-decimal 4 c.port q,
      ) in
    rw
      (
        client_ref,
        h,
        leb-gt 100 (length front) (omega arith),
        leb-gt 100 (length (front ++ behind)) (omega (arith, length-append front behind)),
      )
      refl
