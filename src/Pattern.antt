-- ===== src/Pattern.antt =====
-- The patterns of internal/utils.go, by which the configuration and the pools write many names at
-- once: `expandPattern` and `splitByPipe`. The recursion on what stands behind a bracket has fuel,
-- one more than the length of the text.
pub mod Words
pub mod Ends
pub mod Tests
use bill_vpn.Common.{
  ℕ, zero, suc, ◌+◌, ◌-◌, Bool, true, false, Option, none, some, List, [], ◌∷◌, ◌++◌, map, Bytes,
  length, if◌then◌else◌, ◌==◌, ◌>>=◌,
}
use mathlib.Core.List.{flatten}

-- The loop of `splitByPipe`, with the part read so far.
unfoldable pub split_loop : Bytes → Bytes → List Bytes
split_loop curr [] = curr ∷ []
split_loop curr (c ∷ s) =
    let next = split_loop (if c == b'|' then [] else curr ++ (c ∷ [])) s in
    if c == b'|' then curr ∷ next else next

unfoldable pub split_by_pipe : Bytes → List Bytes
unfolding split_loop
split_by_pipe [] = [] ∷ []
split_by_pipe (c ∷ s) = split_loop [] (c ∷ s)

abbrev pub behind : ℕ → Option (Bytes × Bytes) → Option (Bytes × Bytes)
behind c none = none
behind c (some (a, b)) = some (c ∷ a, b)

-- What stands before and behind the first opening bracket.
unfoldable pub split_open : Bytes → Option (Bytes × Bytes)
split_open [] = none
split_open (c ∷ s) = if c == b'(' then some ([], s) else behind c (split_open s)

-- What stands before and behind the bracket that closes the given number of open ones.
unfoldable pub split_close : ℕ → Bytes → Option (Bytes × Bytes)
split_close depth [] = none
split_close depth (c ∷ s) =
    let rest =
      split_close (if c == b'(' then depth + 1 else if c == b')' then depth - 1 else depth) s in
    if c == b'('
    then behind c rest
    else if c == b')'
    then if depth - 1 == 0 then some ([], s) else behind c rest
    else behind c rest

-- The two loops over the parts and over the expansions of the suffix, without the memory that is
-- set aside for them first, which may not suffice.
unfoldable pub combine : Bytes → List Bytes → List Bytes → List Bytes
combine before parts suffixes =
    flatten (map (λ part. map (λ suffix. before ++ (part ++ suffix)) suffixes) parts)

unfoldable pub expand : ℕ → Bytes → Option (List Bytes)
unfolding split_open split_close split_by_pipe combine
expand zero s = none
expand (suc fuel) s = elim (split_open s) [
  | none ↦ some (split_by_pipe s)
  | some (before, opened) ↦ elim (split_close 1 opened) [
    | none ↦ some (split_by_pipe s)
    | some (inner, after) ↦ do
      suffixes ← expand fuel after
      some (combine before (split_by_pipe inner) suffixes)
  ]
]

-- `expandPattern`; `none` if the fuel runs out.
unfoldable pub expand_pattern : Bytes → Option (List Bytes)
unfolding expand
expand_pattern s = expand (suc (length s)) s
