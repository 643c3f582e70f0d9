-- ===== src/Gfw.antt =====
-- The built-in list of internal/gfwlist.go: `parseEmbeddedGFWList` and what it calls. The set of
-- patterns is a list without repetition, which is sorted at the end. The packages unicode, base64,
-- url, net and regexp are arguments.
pub mod Members
pub mod Hosts
pub mod Lists
pub mod Tests
use bill_vpn.Common.{
  ℕ, Bool, true, false, not, ◌&&◌, ◌||◌, Option, none, some, List, [], ◌∷◌, ◌++◌, Bytes,
  Bytes-discrete, codes, drop, if◌then◌else◌, ite, ltb, ◌==◌, ◌>>=◌,
}
use bill_vpn.FakeIp.{to_lower}
use bill_vpn.Route.{is_empty}
use bill_vpn.Tunnel.Dispatch.{has_prefix}

-- `unicode.IsSpace`, `base64.StdEncoding.DecodeString`, the Host of `url.Parse` (empty for an
-- error), `net.SplitHostPort`, `gfwHostRegexp.FindString`, and whether `net.ParseIP` is not nil.
pub record Outside : Type 0 where
  pub is_space : ℕ → Bool
  pub decode : Bytes → Option Bytes
  pub url_host : Bytes → Bytes
  pub split_host_port : Bytes → Option (Bytes × Bytes)
  pub find_host : Bytes → Bytes
  pub is_ip : Bytes → Bool

-- `strings.TrimLeft`, `strings.TrimRight` and `strings.Trim` for the bytes of a set.
pub trim_left : (ℕ → Bool) → Bytes → Bytes
trim_left p [] = []
trim_left p (c ∷ s) = let rest = trim_left p s in if p c then rest else c ∷ s

pub trim_right : (ℕ → Bool) → Bytes → Bytes
trim_right p [] = []
trim_right p (c ∷ s) = let rest = trim_right p s in if is_empty rest && p c then [] else c ∷ rest

abbrev pub trim : (ℕ → Bool) → Bytes → Bytes
trim p s = trim_right p (trim_left p s)

-- The spaces go out.
pub remove : (ℕ → Bool) → Bytes → Bytes
remove p [] = []
remove p (c ∷ s) = let rest = remove p s in if p c then rest else c ∷ rest

-- `strings.Split(s, "\n")`, with the part read so far.
pub split_lines : Bytes → Bytes → List Bytes
split_lines curr [] = curr ∷ []
split_lines curr (c ∷ s) =
    let next = split_lines (if c == 10 then [] else curr ++ (c ∷ [])) s in
    if c == 10 then curr ∷ next else next

-- What stands before the first byte of a set.
pub before_any : (ℕ → Bool) → Bytes → Bytes
before_any p [] = []
before_any p (c ∷ s) = let rest = before_any p s in if p c then [] else c ∷ rest

-- `strings.Contains`
pub contains : Bytes → Bytes → Bool
contains part [] = is_empty part
contains part (c ∷ s) = has_prefix (c ∷ s) part || contains part s

-- The host of an URL, if the rule is one.
pub url_part : Outside → Bytes → Bytes
unfolding contains
url_part o rule =
    if contains (codes "://") rule && not (is_empty (o.url_host rule))
    then o.url_host rule
    else rule

pub port_part : Outside → Bytes → Bytes
port_part o rule = elim (o.split_host_port rule) [ none ↦ rule | some (host, port) ↦ host ]

-- The end of `extractGFWListHost`, from the regular expression on.
pub match_host : Outside → Bytes → Option Bytes
unfolding trim_left trim_right
match_host o rule =
    let host = o.find_host (to_lower rule) in
    if is_empty host || o.is_ip host then none else some (trim (λ c. c == b'.') host)

-- `extractGFWListHost`
pub extract_host : Outside → Bytes → Option Bytes
unfolding trim_left trim_right before_any url_part port_part match_host
extract_host o text =
    let rule = trim o.is_space text in
    let bare =
      trim_left (λ c. (c == b'|') || (c == b'.'))
        (before_any (λ c. (c == b'^') || (c == b'$')) rule) in
    if is_empty rule || is_empty bare
    then none
    else match_host o
        (port_part o (trim (λ c. (c == b'*') || ((c == b'.') || (c == b'/'))) (url_part o bare)))

-- `normalizeGFWListRule`
pub normalize_rule : Outside → Bytes → Option Bytes
unfolding trim_left trim_right extract_host
normalize_rule o text =
    let rule = trim o.is_space text in
    if is_empty rule || (has_prefix rule (codes "/") || has_prefix rule (codes "||^"))
    then none
    else extract_host o rule >>= (λ host. some (b'*' ∷ host))

-- A line's pattern, and whether it is an exception.
pub rule_of : Outside → Bytes → Option (Bool × Bytes)
unfolding trim_left trim_right normalize_rule
rule_of o text =
    let line = trim o.is_space text in
    if is_empty line || (has_prefix line (codes "!") || has_prefix line (codes "["))
    then none
    else if has_prefix line (codes "@@")
    then normalize_rule o (drop 2 line) >>= (λ p. some (true, p))
    else normalize_rule o line >>= (λ p. some (false, p))

-- The order of `sort.Strings`.
pub less : Bytes → Bytes → Bool
less s [] = false
less [] (d ∷ t) = true
less (c ∷ s) (d ∷ t) = ltb c d || ((c == d) && less s t)

-- A key goes into a sorted list, once.
pub insert_key : Bytes → List Bytes → List Bytes
unfolding less
insert_key k [] = k ∷ []
insert_key k (j ∷ keys) =
    let rest = insert_key k keys in
    ite (Bytes-discrete k j) (j ∷ keys) (if less k j then k ∷ j ∷ keys else j ∷ rest)

-- The sorted keys of the two sets, with a line's pattern.
pub add_rule : Option (Bool × Bytes) → List Bytes × List Bytes → List Bytes × List Bytes
unfolding insert_key
add_rule none sets = sets
add_rule (some (true, p)) (blocked, bypass) = (blocked, insert_key p bypass)
add_rule (some (false, p)) (blocked, bypass) = (insert_key p blocked, bypass)

-- The loop over the lines.
pub collect : Outside → List Bytes → List Bytes × List Bytes → List Bytes × List Bytes
unfolding rule_of add_rule
collect o [] sets = sets
collect o (line ∷ lines) sets = collect o lines (add_rule (rule_of o line) sets)

-- `parseEmbeddedGFWList`: the patterns that are blocked, and the exceptions.
pub parse_embedded : Outside → Bytes → Option (List Bytes × List Bytes)
unfolding remove split_lines collect
parse_embedded o raw =
    o.decode (remove o.is_space raw) >>= (λ text. some (collect o (split_lines [] text) ([], [])))
