-- ===== src/Mobile/Frames.antt =====
-- The local DNS server of mobile/dns_tcp_conn.go: what `serveLocalDNSTCP` reads from and writes to
-- its end of the pipe. `bill.HandleDNSQueryPacket` is an argument (`none` for an error), which may
-- change a state; the client takes the frames for which `accepts` holds.
use bill_vpn.Common.{
  ℕ, zero, suc, ◌+◌, ◌*◌, ◌/◌, ◌%◌, ◌≡◌, ◌≤◌, ◌<◌, refl, ap, Bool, true, false, Option, none, some,
  List, [], ◌∷◌, ◌++◌, Bytes, length, length-append, length-drop, take, drop, ltb, ◌==◌,
  if◌then◌else◌, arith, append_assoc, take-append_length, drop-append_length, All, Bool-cases, ◌⊎◌,
  inl, inr,
}

-- `binary.BigEndian.Uint16` and `PutUint16` after the conversion to `uint16`.
abbrev pub uint16 : ℕ → ℕ → ℕ
uint16 hi lo = hi * 256 + lo

abbrev pub put_uint16 : ℕ → Bytes
put_uint16 n = (n % 65536 / 256) ∷ (n % 256) ∷ []

-- A message behind its length.
abbrev pub frame : Bytes → Bytes
frame m = put_uint16 (length m) ++ m

-- A message as the protocol has it: its length in two bytes, the high one first, and its bytes.
abbrev pub prefixed : Bytes → Bytes
prefixed m = (length m / 256) ∷ (length m % 256) ∷ m

abbrev pub stream_of : List Bytes → Bytes
stream_of [] = []
stream_of (m ∷ ms) = prefixed m ++ stream_of ms

prefixed-frame : (m : Bytes) → length m < 65536 → frame m ≡ prefixed m
prefixed-frame m h =
    let small : length m % 65536 ≡ length m = omega arith in
    ap (λ k. (k / 256) ∷ (length m % 256) ∷ m) small

module _ {S : Type 0} (handle : S → Bytes → S × Option Bytes) (accepts : Bytes → Bool) where
  -- The end of a round: the frame of the answer, and then the further rounds.
  abbrev pub write_frame : S × Option Bytes → S × List Bytes → S × List Bytes
  write_frame (s, none) rest = (s, [])
  write_frame (s, some resp) (s', fs) =
      if accepts (frame resp) then (s', frame resp ∷ fs) else (s, [])

  -- `serveLocalDNSTCP` on what the client sends until it closes, as at most `k` rounds: the state
  -- that is left and the frames written. Each round reads two bytes at least.
  unfoldable pub serve_rounds : ℕ → S → Bytes → S × List Bytes
  serve_rounds (suc k) s (hi ∷ lo ∷ input) =
      let n = uint16 hi lo in
      let r = handle s (take n input) in
      let rest = serve_rounds k r.0 (drop n input) in
      if n == 0 then (s, []) else if ltb (length input) n then (s, []) else write_frame r rest
  serve_rounds _ s _ = (s, [])

  pub serve_local_dns_tcp : S → Bytes → S × List Bytes
  unfolding serve_rounds
  serve_local_dns_tcp s input = serve_rounds (length input) s input

  -- More rounds than bytes change nothing.
  pub serve_rounds_enough :
      (j k : ℕ) (s : S) (input : Bytes)
      → length input ≤ j
      → length input ≤ k
      → serve_rounds j s input ≡ serve_rounds k s input
  unfolding serve_rounds
  serve_rounds_enough zero zero s input h g = refl
  serve_rounds_enough zero (suc k) s [] h g = refl
  serve_rounds_enough (suc j) zero s [] h g = refl
  serve_rounds_enough (suc j) (suc k) s [] h g = refl
  serve_rounds_enough (suc j) (suc k) s (hi ∷ []) h g = refl
  serve_rounds_enough (suc j) (suc k) s (hi ∷ lo ∷ input) h g =
      let n = uint16 hi lo in
      let same =
        serve_rounds_enough j k (handle s (take n input)).0 (drop n input)
          (omega (arith, length-drop n input)) (omega (arith, length-drop n input)) in
      rw same refl
  serve_rounds_enough zero k s (x ∷ input) h g = absurd (omega arith)
  serve_rounds_enough j zero s (x ∷ input) h g = absurd (omega arith)

  -- What is left and what is written when the handler answers the messages one after the other:
  -- nothing more from the first message on that has no answer or whose answer the client does not
  -- take, and else the answer behind its length.
  pub data Answers : S → List Bytes → S × List Bytes → Type 0 where
    no_message : {s : S} → Answers s [] (s, [])
    no_answer :
        {s s' : S} {m : Bytes} {ms : List Bytes}
        → handle s m ≡ (s', none)
        → Answers s (m ∷ ms) (s', [])
    not_taken :
        {s s' : S} {m a : Bytes} {ms : List Bytes}
        → handle s m ≡ (s', some a)
        → accepts (prefixed a) ≡ false
        → Answers s (m ∷ ms) (s', [])
    taken :
        {s s' s'' : S} {m a : Bytes} {ms fs : List Bytes}
        → handle s m ≡ (s', some a)
        → accepts (prefixed a) ≡ true
        → Answers s' ms (s'', fs)
        → Answers s (m ∷ ms) (s'', prefixed a ∷ fs)

  -- An end of the input that is not a message: nothing, half a length, an empty message, or fewer
  -- bytes than its length says.
  abbrev pub IsCut : Bytes → Type 0
  IsCut [] = Unit
  IsCut (hi ∷ []) = Unit
  IsCut (hi ∷ lo ∷ input) = (uint16 hi lo ≡ 0) ⊎ (length input < uint16 hi lo)

  serve_rounds-cut : (k : ℕ) (s : S) (rest : Bytes) → IsCut rest → serve_rounds k s rest ≡ (s, [])
  unfolding serve_rounds
  serve_rounds-cut zero s rest h = refl
  serve_rounds-cut (suc k) s [] h = refl
  serve_rounds-cut (suc k) s (hi ∷ []) h = refl
  serve_rounds-cut (suc k) s (hi ∷ lo ∷ input) (inl e) =
      let t : (uint16 hi lo == 0) ≡ true = ground (arith, e) in rw t refl
  serve_rounds-cut (suc k) s (hi ∷ lo ∷ input) (inr short) = elim (Bool-cases (uint16 hi lo == 0)) [
    | inl e ↦ rw e refl
    | inr e ↦
        let t : ltb (length input) (uint16 hi lo) ≡ true = ground (arith, short) in rw (e, t) refl
  ]

  -- The end of a round is one step of the description.
  write_frame-Answers :
      (s : S) (m : Bytes) (ms : List Bytes) (rest : S → S × List Bytes)
      → ((a : Bytes) → (handle s m).1 ≡ some a → length a < 65536)
      → ((s' : S) → Answers s' ms (rest s'))
      → Answers s (m ∷ ms) (write_frame (handle s m) (rest (handle s m).0))
  write_frame-Answers s m ms rest short next = go (handle s m) refl
    where
      go : (r : S × Option Bytes) → handle s m ≡ r → Answers s (m ∷ ms) (write_frame r (rest r.0))
      go (s', none) e = no_answer e
      go (s', some a) e =
          let small : length a < 65536 = short a (ap (λ r. r.1) e) in
          let same : frame a ≡ prefixed a = prefixed-frame a small in
          elim (Bool-cases (accepts (prefixed a))) [
            | inl ok ↦ rw (same, ok) (taken e ok (next s'))
            | inr fails ↦ rw (same, fails) (not_taken e fails)
          ]

  serve_rounds-Answers :
      (k : ℕ) (s : S) (ms : List Bytes) (rest : Bytes)
      → ((s : S) (m a : Bytes) → (handle s m).1 ≡ some a → length a < 65536)
      → All (λ m. (0 < length m) × (length m < 65536)) ms
      → IsCut rest
      → length ms ≤ k
      → Answers s ms (serve_rounds k s (stream_of ms ++ rest))
  unfolding serve_rounds
  serve_rounds-Answers k s [] rest short h cut enough =
      rw (serve_rounds-cut k s rest cut) no_message
  serve_rounds-Answers zero s (m ∷ ms) rest short h cut enough = absurd (omega arith)
  serve_rounds-Answers (suc k) s (m ∷ ms) rest short ((low, high), h) cut enough =
      let len : uint16 (length m / 256) (length m % 256) ≡ length m = omega arith in
      let full : (length m == 0) ≡ false = ground (arith, low) in
      let tail = stream_of ms ++ rest in
      let whole : ltb (length (m ++ tail)) (length m) ≡ false =
        ground (arith, length-append m tail) in
      rw
        (
          append_assoc m (stream_of ms) rest,
          len,
          full,
          whole,
          take-append_length m tail,
          drop-append_length m tail,
        )
        (write_frame-Answers s m ms (λ s'. serve_rounds k s' tail) (short s m)
          (λ s'. serve_rounds-Answers k s' ms rest short h cut (omega arith)))

  length-stream_of : (ms : List Bytes) (rest : Bytes) → length ms ≤ length (stream_of ms ++ rest)
  length-stream_of [] rest = omega arith
  length-stream_of (m ∷ ms) rest = omega (
    arith,
    length-stream_of ms rest,
    ap length (append_assoc m (stream_of ms) rest),
    length-append m (stream_of ms ++ rest),
  )

  -- Where the handler's answers are shorter than 65536 bytes: a client that sends messages of 1 to
  -- 65535 bytes, each behind its length in two bytes, and then closes, perhaps within a message, is
  -- answered as the handler answers the messages one after the other, each answer behind its
  -- length, up to the first message that has no answer or whose answer the client does not take.
  pub serve_local_dns_tcp-Answers :
      (s : S) (ms : List Bytes) (rest : Bytes)
      → ((s : S) (m a : Bytes) → (handle s m).1 ≡ some a → length a < 65536)
      → All (λ m. (0 < length m) × (length m < 65536)) ms
      → IsCut rest
      → Answers s ms (serve_local_dns_tcp s (stream_of ms ++ rest))
  unfolding serve_local_dns_tcp
  serve_local_dns_tcp-Answers s ms rest short h cut =
      serve_rounds-Answers (length (stream_of ms ++ rest)) s ms rest short h cut
        (length-stream_of ms rest)
