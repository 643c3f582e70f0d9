-- ===== src/Gfw/Hosts.antt =====
-- The host names that the rules of internal/gfwlist.go are about, and how they are read from a rule.
use bill_vpn.Common.{
  ℕ, ◌≡◌, refl, Bool, true, false, ◌||◌, ◌&&◌, if◌then◌else◌, none, some, [], ◌∷◌, ◌++◌, Bytes,
  codes, ◌==◌, All, arith,
}
use bill_vpn.FakeIp.{to_lower}
use bill_vpn.Route.{is_empty}
use bill_vpn.Tunnel.Dispatch.{has_prefix}
use bill_vpn.Gfw.{
  Outside, trim_left, trim_right, trim, before_any, contains, url_part, port_part, match_host,
  extract_host, normalize_rule,
}

-- A host of two characters at least.
pub record Host : Type 0 where
  pub first : ℕ
  pub middle : Bytes
  pub last : ℕ

abbrev pub text : Host → Bytes
text h = h.first ∷ (h.middle ++ (h.last ∷ []))

-- The characters that mean something in a rule, and the end of a line.
abbrev pub is_mark : ℕ → Bool
is_mark c =
    (c == b'|')
    || ((c == b'^')
        || ((c == b'$') || ((c == b'*') || ((c == b'/') || ((c == b':') || (c == 10))))))

-- A plain host name in lower case: it has no space, no mark and no dot at an end, it has no port,
-- the regular expression matches all of it, and it is not an IP address.
pub record IsHost (o : Outside) (h : Host) : Type 0 where
  pub plain : All (λ c. (o.is_space c ≡ false) × (is_mark c ≡ false)) (text h)
  pub first_plain :
      ((o.is_space h.first ≡ false) × (is_mark h.first ≡ false)) × ((h.first == b'.') ≡ false)
  pub last_plain :
      ((o.is_space h.last ≡ false) × (is_mark h.last ≡ false)) × ((h.last == b'.') ≡ false)
  pub lower : to_lower (text h) ≡ text h
  pub no_port : o.split_host_port (text h) ≡ none
  pub found : o.find_host (text h) ≡ text h
  pub no_ip : o.is_ip (text h) ≡ false

-- A rule for a host and all below it.
abbrev pub rule_text : Host → Bytes
rule_text h = b'|' ∷ b'|' ∷ text h

-- The marks in front of a line are no spaces.
abbrev pub HasMarks : Outside → Type 0
HasMarks o = (o.is_space b'!' ≡ false) × (o.is_space b'|' ≡ false) × (o.is_space b'@' ≡ false)

trim_right_kept :
    (p : ℕ → Bool) (s : Bytes) (d : ℕ) → p d ≡ false → trim_right p (s ++ (d ∷ [])) ≡ s ++ (d ∷ [])
unfolding trim_right
trim_right_kept p [] d h = rw h refl
trim_right_kept p (c ∷ []) d h = rw (trim_right_kept p [] d h) refl
trim_right_kept p (c ∷ x ∷ s) d h = rw (trim_right_kept p (x ∷ s) d h) refl

pub trim_left_kept : (p : ℕ → Bool) (c : ℕ) (s : Bytes) → p c ≡ false → trim_left p (c ∷ s) ≡ c ∷ s
unfolding trim_left
trim_left_kept p c s h = rw h refl

pub trim_kept :
    (p : ℕ → Bool) (c : ℕ) (s : Bytes) (d : ℕ)
    → p c ≡ false
    → p d ≡ false
    → trim p (c ∷ (s ++ (d ∷ []))) ≡ c ∷ (s ++ (d ∷ []))
trim_kept p c s d front back =
    rw (trim_left_kept p c (s ++ (d ∷ [])) front) (trim_right_kept p (c ∷ s) d back)

before_any_kept : (p : ℕ → Bool) (s : Bytes) → All (λ c. p c ≡ false) s → before_any p s ≡ s
unfolding before_any
before_any_kept p [] h = refl
before_any_kept p (c ∷ s) (e, h) = rw (e, before_any_kept p s h) refl

contains_not : (s : Bytes) → All (λ c. (c == b':') ≡ false) s → contains (codes "://") s ≡ false
unfolding contains has_prefix
contains_not [] h = refl
contains_not (c ∷ s) (e, h) = rw (e, contains_not s h) refl

pub All-imp : {P Q : ℕ → Type 0} (s : Bytes) → ((c : ℕ) → P c → Q c) → All P s → All Q s
All-imp [] f h = tt
All-imp (c ∷ s) f (x, h) = (f c x, All-imp s f h)

if_and_false : (b : Bool) (x y : Bytes) → (if b && false then x else y) ≡ y
if_and_false true x y = refl
if_and_false false x y = refl

pub trim_right-head :
    (p : ℕ → Bool) (c : ℕ) (s : Bytes) → p c ≡ false → trim_right p (c ∷ s) ≡ c ∷ trim_right p s
unfolding trim_right
trim_right-head p c s h = rw h (if_and_false (is_empty (trim_right p s)) [] (c ∷ trim_right p s))

before_any-bars :
    (p : ℕ → Bool) (s : Bytes)
    → p b'|' ≡ false
    → before_any p (b'|' ∷ b'|' ∷ s) ≡ b'|' ∷ b'|' ∷ before_any p s
unfolding before_any
before_any-bars p s h = rw h refl

trim_left-bars :
    (p : ℕ → Bool) (s : Bytes) → p b'|' ≡ true → trim_left p (b'|' ∷ b'|' ∷ s) ≡ trim_left p s
unfolding trim_left
trim_left-bars p s h = rw h refl

url_part_kept : (o : Outside) (s : Bytes) → contains (codes "://") s ≡ false → url_part o s ≡ s
unfolding url_part
url_part_kept o s h = rw h refl

port_part_kept : (o : Outside) (s : Bytes) → o.split_host_port s ≡ none → port_part o s ≡ s
unfolding port_part
port_part_kept o s h = rw (port_part, h) refl

module _ (o : Outside) (marks : HasMarks o) where
  match_host-IsHost : (h : Host) → IsHost o h → match_host o (text h) ≡ some (text h)
  unfolding match_host
  match_host-IsHost h ok =
      let dots =
        trim_kept (λ c. c == b'.') h.first h.middle h.last ok.first_plain.1 ok.last_plain.1 in
      rw (ok.lower, ok.found, ok.no_ip, dots) refl

  -- What is behind the bars, up to an end mark.
  bare_host :
      (h : Host)
      → IsHost o h
      → trim_left
          (λ c. (c == b'|') || (c == b'.'))
          (before_any (λ c. (c == b'^') || (c == b'$')) (rule_text h))
        ≡ text h
  bare_host h ok =
      let ((open_space, first_mark), first_dot) = ok.first_plain in
      let uncut : before_any (λ c. (c == b'^') || (c == b'$')) (text h) ≡ text h =
        before_any_kept (λ c. (c == b'^') || (c == b'$')) (text h)
          (All-imp (text h) (λ c e. ground (arith, e.1)) ok.plain) in
      rw
        (
          before_any-bars (λ c. (c == b'^') || (c == b'$')) (text h) refl,
          uncut,
          trim_left-bars (λ c. (c == b'|') || (c == b'.')) (text h) refl,
        )
        (trim_left_kept (λ c. (c == b'|') || (c == b'.')) h.first (h.middle ++ (h.last ∷ []))
          (ground (arith, first_mark, first_dot)))

  pub trim_space-rule : (h : Host) → IsHost o h → trim o.is_space (rule_text h) ≡ rule_text h
  trim_space-rule h ok =
      trim_kept o.is_space b'|' (b'|' ∷ h.first ∷ h.middle) h.last marks.1 ok.last_plain.0.0

  -- The text of a rule is taken apart to its host.
  extract_host-rule : (h : Host) → IsHost o h → extract_host o (rule_text h) ≡ some (text h)
  unfolding extract_host
  extract_host-rule h ok =
      let ((open_space, first_mark), first_dot) = ok.first_plain in
      let ((end_space, last_mark), last_dot) = ok.last_plain in
      let no_url : contains (codes "://") (text h) ≡ false =
        contains_not (text h) (All-imp (text h) (λ c e. ground (arith, e.1)) ok.plain) in
      let inner : trim (λ c. (c == b'*') || ((c == b'.') || (c == b'/'))) (text h) ≡ text h =
        trim_kept (λ c. (c == b'*') || ((c == b'.') || (c == b'/'))) h.first h.middle h.last
          (ground (arith, first_mark, first_dot)) (ground (arith, last_mark, last_dot)) in
      rw
        (
          trim_space-rule h ok,
          bare_host h ok,
          url_part_kept o (text h) no_url,
          inner,
          port_part_kept o (text h) ok.no_port,
        )
        (match_host-IsHost h ok)

  pub normalize_rule-rule :
      (h : Host) → IsHost o h → normalize_rule o (rule_text h) ≡ some (b'*' ∷ text h)
  unfolding normalize_rule has_prefix
  normalize_rule-rule h ok =
      let no_end : (h.first == b'^') ≡ false = ground (arith, ok.first_plain.0.1) in
      rw (trim_space-rule h ok, no_end, extract_host-rule h ok) refl
