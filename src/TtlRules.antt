-- ===== src/TtlRules.antt =====
-- The rules of internal/desync.go that turn the TTL that reaches a host into the TTL of the fake
-- packets: `parseTTLRules` and the function that `loadTTLRules` builds from them. The number of
-- the loops' rounds is fuel, one more than the number of bytes.
pub mod Parsed
pub mod Applied
pub mod Tests
use bill_vpn.Common.{
  ℕ, zero, suc, ◌+◌, ◌-◌, ◌*◌, ◌%◌, Bool, true, false, not, ◌&&◌, ◌||◌, Option, none, some, List,
  [], ◌∷◌, ◌++◌, Bytes, if◌then◌else◌, leb, ltb, ◌==◌, length, ◌>>=◌, ℤ, pos, negsuc, ◌-ℤ◌, ◌≤ℤ◌,
  ltb_ℤ,
}

pub record Rule : Type 0 where
  pub threshold : ℤ
  pub typ : ℕ
  pub val : ℤ

abbrev pub is_digit : ℕ → Bool
is_digit c = leb b'0' c && leb c b'9'

-- The bits of a Go `int` of 64 bits, read with a sign.
abbrev pub to_int : ℕ → ℤ
to_int n = if ltb n 9223372036854775808 then pos n else negsuc (18446744073709551616 - n - 1)

-- The scan over digits: their number, the value they add to `acc`, and what is behind them. The sum
-- wraps at 2 ^ 64.
pub digits : ℕ → ℕ → Bytes → ℕ × ℕ × Bytes
digits count acc [] = (count, acc, [])
digits count acc (c ∷ b) =
    let rest = digits (count + 1) ((acc * 10 + (c - b'0')) % 18446744073709551616) b in
    if is_digit c then rest else (count, acc, c ∷ b)

-- `if i < len(b) && b[i] == ';' { i++ }`
pub skip_semicolon : Bytes → Bytes
skip_semicolon [] = []
skip_semicolon (c ∷ b) = if c == b';' then b else c ∷ b

-- The right number of a rule and the rule itself.
pub parse_value : ℤ → ℕ → Bytes → Option (Rule × Bytes)
unfolding digits skip_semicolon
parse_value a op b =
    let (count, val, rest) = digits 0 0 b in
    if count == 0
    then none
    else some (record { threshold = a; typ = op; val = to_int val }, skip_semicolon rest)

pub parse_operator : ℤ → Bytes → Option (Rule × Bytes)
unfolding parse_value
parse_operator a [] = none
parse_operator a (op ∷ b) =
    if not (op == b'-') && not (op == b'=') then none else parse_value a op b

-- One round of the loop of `parseTTLRules`; `none` is an error.
pub parse_rule : Bytes → Option (Rule × Bytes)
unfolding digits parse_operator
parse_rule b =
    let (count, a, rest) = digits 0 0 b in
    if count == 0 then none else parse_operator (to_int a) rest

-- The result of a parse: out of fuel, an error, or the rules.
pub data Parse : Type 0 where
  stuck failed : Parse
  parsed : List Rule → Parse

pub parse_rules : ℕ → List Rule → Bytes → Parse
unfolding parse_rule
parse_rules fuel rules [] = parsed rules
parse_rules zero rules (c ∷ b) = stuck
parse_rules (suc fuel) rules (c ∷ b) = elim (parse_rule (c ∷ b)) [
  | none ↦ failed
  | some (r, rest) ↦ parse_rules fuel (rules ++ (r ∷ [])) rest
]

-- `parseTTLRules`, with `sort.Slice` by falling threshold as an argument.
pub parse_ttl_rules : (List Rule → List Rule) → Bytes → Parse
unfolding parse_rules
parse_ttl_rules sort [] = failed
parse_ttl_rules sort (c ∷ conf) = elim (parse_rules (length (c ∷ conf)) [] (c ∷ conf)) [
  | stuck ↦ stuck
  | failed ↦ failed
  | parsed rules ↦ parsed (sort rules)
]

-- The value that 64 bits keep of a difference.
abbrev pub wrap_int : ℤ → ℤ
wrap_int (pos n) = to_int (n % 18446744073709551616)
wrap_int (negsuc n) = to_int (18446744073709551616 - 1 - n % 18446744073709551616)

-- The function `calcTTL` over the rules.
pub calc_ttl : List Rule → ℤ → Option ℤ
calc_ttl [] ttl = none
calc_ttl (r ∷ rules) ttl =
    if ltb_ℤ ttl r.threshold
    then calc_ttl rules ttl
    else some (if r.typ == b'-' then wrap_int (ttl -ℤ r.val) else r.val)
