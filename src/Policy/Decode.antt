-- ===== src/Policy/Decode.antt =====
-- `Policy.UnmarshalJSON` of internal/policy.go behind `json.Unmarshal`: the checks on the decoded
-- fields, in their order. `time.ParseDuration` is the parameter `parse_duration`.
pub mod Tests
use bill_vpn.Common.{
  ◌≡◌, refl, Bool, false, ◌||◌, Option, none, some, [], ◌∷◌, Bytes, if◌then◌else◌, ℤ, pos, negsuc,
  ltb_ℤ, ◌≤ℤ◌, eqb_ℤ, arith, Bool-cases, ◌⊎◌, inl, inr,
}
use mathlib.Core.Path.{subst}
use bill_vpn.Policy.{Policy, Mode, DnsMode, BoolWithDefault, unset_int}

-- The fields of `tmp`: `none` is a key that is absent.
pub record RawPolicy : Type 0 where
  pub raw_reply_first : BoolWithDefault
  pub raw_connect_timeout : Option Bytes
  pub raw_host : Option Bytes
  pub raw_map_to : Option Bytes
  pub raw_port : Option ℤ
  pub raw_dns_mode : DnsMode
  pub raw_http_status : Option ℤ
  pub raw_tls13_only : BoolWithDefault
  pub raw_mode : Mode
  pub raw_num_records : Option ℤ
  pub raw_num_segments : Option ℤ
  pub raw_oob : BoolWithDefault
  pub raw_oob_ex : BoolWithDefault
  pub raw_mod_minor_ver : BoolWithDefault
  pub raw_send_interval : Option Bytes
  pub raw_fake_ttl : Option ℤ
  pub raw_fake_sleep : Option Bytes
  pub raw_max_ttl : Option ℤ
  pub raw_attempts : Option ℤ
  pub raw_single_timeout : Option Bytes

pub data DecodeError : Type 0 where
  empty_host empty_map_to : DecodeError
  bad_port bad_http_status bad_num_records bad_num_segments : ℤ → DecodeError
  bad_fake_ttl bad_attempts bad_max_ttl : ℤ → DecodeError
  unparsable not_positive negative : Bytes → DecodeError

pub data Result {ℓ} (A : Type ℓ) : Type ℓ where
  ok : A → Result A
  err : DecodeError → Result A

infixl 5 ◌>>=◌
abbrev ◌>>=◌ {ℓ κ} : {A : Type ℓ} {B : Type κ} → Result A → (A → Result B) → Result B
err refusal >>= next = err refusal
ok value >>= next = next value

-- A string that may be absent and may not be empty.
check_text : DecodeError → Option Bytes → Result (Option Bytes)
check_text e none = ok none
check_text e (some []) = err e
check_text e (some (c ∷ s)) = ok (some (c ∷ s))

-- A number that may be absent: the value for that, and the test that refuses it.
check_int : ℤ → (ℤ → Bool) → (ℤ → DecodeError) → Option ℤ → Result ℤ
check_int absent refused e none = ok absent
check_int absent refused e (some z) = if refused z then err (e z) else ok z

-- `z < lo` and `z > hi`
abbrev below : ℤ → ℤ → Bool
below lo z = ltb_ℤ z lo

abbrev outside : ℤ → ℤ → ℤ → Bool
outside lo hi z = ltb_ℤ z lo || ltb_ℤ hi z

module _ (parse_duration : Bytes → Option ℤ) where
  check_parsed : ℤ → DecodeError → Bytes → Option ℤ → Result ℤ
  check_parsed least e text none = err (unparsable text)
  check_parsed least e text (some d) = if ltb_ℤ d least then err e else ok d

  -- A duration that may be absent: it must parse, and be positive, or not negative.
  check_duration : ℤ → ℤ → (Bytes → DecodeError) → Option Bytes → Result ℤ
  check_duration absent least e none = ok absent
  check_duration absent least e (some text) = check_parsed least (e text) text (parse_duration text)

  pub unmarshal_policy : RawPolicy → Result Policy
  unmarshal_policy r = do
    host ← check_text empty_host r.raw_host
    map_to ← check_text empty_map_to r.raw_map_to
    port ← check_int unset_int (outside (pos 0) (pos 65535)) bad_port r.raw_port
    http_status ← check_int unset_int (below (pos 0)) bad_http_status r.raw_http_status
    num_records ← check_int (pos 0) (below (pos 1)) bad_num_records r.raw_num_records
    num_segments ←
        check_int (pos 0) (λ z. eqb_ℤ z (pos 0) || ltb_ℤ z (negsuc 0)) bad_num_segments
          r.raw_num_segments
    fake_ttl ← check_int unset_int (outside (pos 0) (pos 255)) bad_fake_ttl r.raw_fake_ttl
    attempts ← check_int (pos 0) (below (pos 1)) bad_attempts r.raw_attempts
    max_ttl ← check_int (pos 0) (outside (pos 2) (pos 255)) bad_max_ttl r.raw_max_ttl
    connect_timeout ← check_duration unset_int (pos 1) not_positive r.raw_connect_timeout
    send_interval ← check_duration unset_int (pos 0) negative r.raw_send_interval
    fake_sleep ← check_duration (pos 0) (pos 1) not_positive r.raw_fake_sleep
    single_timeout ← check_duration unset_int (pos 1) not_positive r.raw_single_timeout
    ok (record {
      reply_first = r.raw_reply_first;
      dns_mode = r.raw_dns_mode;
      connect_timeout = connect_timeout;
      host = host;
      map_to = map_to;
      port = port;
      http_status = http_status;
      tls13_only = r.raw_tls13_only;
      mode = r.raw_mode;
      num_records = num_records;
      num_segments = num_segments;
      oob = r.raw_oob;
      oob_ex = r.raw_oob_ex;
      mod_minor_ver = r.raw_mod_minor_ver;
      send_interval = send_interval;
      fake_ttl = fake_ttl;
      fake_sleep = fake_sleep;
      max_ttl = max_ttl;
      attempts = attempts;
      single_timeout = single_timeout;
    })

-- The value is the one for an absent key, or lies in the range.
abbrev pub Ranges : ℤ → ℤ → ℤ → ℤ → Type 0
Ranges absent lo hi z = (z ≡ absent) ⊎ ((lo ≤ℤ z) × (z ≤ℤ hi))

abbrev pub AtLeast : ℤ → ℤ → ℤ → Type 0
AtLeast absent lo z = (z ≡ absent) ⊎ (lo ≤ℤ z)

abbrev pub NotEmpty : Option Bytes → Type 0
NotEmpty o = o ≡ some [] → ⊥

pub record IsValid (p : Policy) : Type 0 where
  pub host_valid : NotEmpty p.host
  pub map_to_valid : NotEmpty p.map_to
  pub port_valid : Ranges unset_int (pos 0) (pos 65535) p.port
  pub status_valid : AtLeast unset_int (pos 0) p.http_status
  pub records_valid : AtLeast (pos 0) (pos 1) p.num_records
  pub segments_valid :
      (p.num_segments ≡ pos 0) ⊎ (p.num_segments ≡ negsuc 0) ⊎ (pos 1 ≤ℤ p.num_segments)
  pub ttl_valid : Ranges unset_int (pos 0) (pos 255) p.fake_ttl
  pub attempts_valid : AtLeast (pos 0) (pos 1) p.attempts
  pub max_ttl_valid : Ranges (pos 0) (pos 2) (pos 255) p.max_ttl
  pub connect_valid : AtLeast unset_int (pos 1) p.connect_timeout
  pub interval_valid : AtLeast unset_int (pos 0) p.send_interval
  pub sleep_valid : AtLeast (pos 0) (pos 1) p.fake_sleep
  pub single_valid : AtLeast unset_int (pos 1) p.single_timeout

data Yields {ℓ κ} {A : Type ℓ} (P : A → Type κ) : Result A → Type (ℓ ⊔ κ) where
  yields : {a : A} → P a → Yields P (ok a)
  refuses : {e : DecodeError} → Yields P (err e)

Yields-bind {ℓ κ μ ν} :
    {A : Type ℓ} {B : Type κ} {Q : A → Type μ} {P : B → Type ν} {m : Result A} {f : A → Result B}
    → Yields Q m
    → ((a : A) → Q a → Yields P (f a))
    → Yields P (m >>= f)
Yields-bind (yields {a = x} q) h = h x q
Yields-bind refuses h = refuses

check_text-NotEmpty : (e : DecodeError) (o : Option Bytes) → Yields NotEmpty (check_text e o)
unfolding check_text
check_text-NotEmpty e none = yields (λ h. cc)
check_text-NotEmpty e (some []) = refuses
check_text-NotEmpty e (some (c ∷ s)) = yields (λ h. ground arith)

check_int-Yields :
    (P : ℤ → Type 0) (absent : ℤ) (refused : ℤ → Bool) (e : ℤ → DecodeError) (o : Option ℤ)
    → P absent
    → ((z : ℤ) → refused z ≡ false → P z)
    → Yields P (check_int absent refused e o)
unfolding check_int
check_int-Yields P absent refused e none h k = yields h
check_int-Yields P absent refused e (some z) h k = elim (Bool-cases (refused z)) [
  | inl bad ↦ rw bad refuses
  | inr good ↦ rw good (yields (k z good))
]

check_duration-Yields :
    (parse : Bytes → Option ℤ) (absent least : ℤ) (e : Bytes → DecodeError) (o : Option Bytes)
    → Yields (AtLeast absent least) (check_duration parse absent least e o)
unfolding check_duration check_parsed
check_duration-Yields parse absent least e none = yields (inl refl)
check_duration-Yields parse absent least e (some text) = parsed (parse text)
  where
    parsed :
        (o : Option ℤ) → Yields (AtLeast absent least) (check_parsed parse least (e text) text o)
    parsed none = refuses
    parsed (some d) = elim (Bool-cases (ltb_ℤ d least)) [
      | inl low ↦ rw low refuses
      | inr high ↦ rw high (yields (inr (ground arith)))
    ]

Ranges-int :
    (absent lo hi : ℤ) (e : ℤ → DecodeError) (o : Option ℤ)
    → Yields (Ranges absent lo hi) (check_int absent (outside lo hi) e o)
Ranges-int absent lo hi e o =
    check_int-Yields (Ranges absent lo hi) absent _ e o (inl refl)
      (λ z h. inr (ground arith, ground arith))

least_int :
    (absent lo : ℤ) (e : ℤ → DecodeError) (o : Option ℤ)
    → Yields (AtLeast absent lo) (check_int absent (below lo) e o)
least_int absent lo e o =
    check_int-Yields (AtLeast absent lo) absent _ e o (inl refl) (λ z h. inr (ground arith))

abbrev SegmentsOk : ℤ → Type 0
SegmentsOk z = (z ≡ pos 0) ⊎ (z ≡ negsuc 0) ⊎ (pos 1 ≤ℤ z)

segments_ok : (z : ℤ) → (eqb_ℤ z (pos 0) || ltb_ℤ z (negsuc 0)) ≡ false → SegmentsOk z
segments_ok (pos n) h = inr (inr (ground arith))
segments_ok (negsuc n) h = inr (inl (ground arith))

unmarshal_policy-Yields :
    (parse : Bytes → Option ℤ) (r : RawPolicy) → Yields IsValid (unmarshal_policy parse r)
unfolding unmarshal_policy
unmarshal_policy-Yields parse r = Yields-bind (check_text-NotEmpty _ r.raw_host) λ host h1.
    Yields-bind (check_text-NotEmpty _ r.raw_map_to) λ map_to h2.
      Yields-bind (Ranges-int unset_int (pos 0) (pos 65535) bad_port r.raw_port) λ port h3.
        Yields-bind (least_int unset_int (pos 0) bad_http_status r.raw_http_status) λ status h4.
          Yields-bind (least_int (pos 0) (pos 1) bad_num_records r.raw_num_records) λ records h5.
            Yields-bind
              (check_int-Yields SegmentsOk (pos 0) _ bad_num_segments r.raw_num_segments (inl refl)
                segments_ok)
              λ segs h6.
                Yields-bind (Ranges-int unset_int (pos 0) (pos 255) bad_fake_ttl r.raw_fake_ttl)
                  λ ttl h7.
                    Yields-bind (least_int (pos 0) (pos 1) bad_attempts r.raw_attempts)
                      λ attempts h8.
                        Yields-bind (Ranges-int (pos 0) (pos 2) (pos 255) bad_max_ttl r.raw_max_ttl)
                          λ max_ttl h9.
                            Yields-bind
                              (check_duration-Yields parse unset_int (pos 1) not_positive
                                r.raw_connect_timeout)
                              λ t1 h10.
                                Yields-bind
                                  (check_duration-Yields parse unset_int (pos 0) negative
                                    r.raw_send_interval)
                                  λ t2 h11.
                                    Yields-bind
                                      (check_duration-Yields parse (pos 0) (pos 1) not_positive
                                        r.raw_fake_sleep)
                                      λ t3 h12.
                                        Yields-bind
                                          (check_duration-Yields parse unset_int (pos 1)
                                            not_positive r.raw_single_timeout)
                                          λ t4 h13. yields (record {
                                            host_valid = h1;
                                            map_to_valid = h2;
                                            port_valid = h3;
                                            status_valid = h4;
                                            records_valid = h5;
                                            segments_valid = h6;
                                            ttl_valid = h7;
                                            attempts_valid = h8;
                                            max_ttl_valid = h9;
                                            connect_valid = h10;
                                            interval_valid = h11;
                                            sleep_valid = h12;
                                            single_valid = h13;
                                          })

abbrev Holds {ℓ κ} : {A : Type ℓ} → (A → Type κ) → Result A → Type κ
Holds P (ok a) = P a
Holds P (err e) = Unit

Yields-ok {ℓ κ} : {A : Type ℓ} {P : A → Type κ} {m : Result A} {a : A} → Yields P m → m ≡ ok a → P a
Yields-ok {P} (yields p) e = subst (λ r. Holds P r) e p
Yields-ok refuses e = cc

-- Whatever `time.ParseDuration` returns, a policy that is accepted holds in every checked field
-- the value for "not set" or a value in the field's range, and no empty host or map_to.
pub unmarshal_policy-IsValid :
    (parse : Bytes → Option ℤ) (r : RawPolicy) (p : Policy)
    → unmarshal_policy parse r ≡ ok p
    → IsValid p
unmarshal_policy-IsValid parse r p e = Yields-ok (unmarshal_policy-Yields parse r) e
