-- ===== src/Gfw/Lists.antt =====
-- Which patterns the list of internal/gfwlist.go holds, for a text in the format of the list.
use bill_vpn.Common.{
  ◌≡◌, refl, sym, ap, ◌∙◌, ◌⊎◌, inl, inr, ◌↔◌, Bool, true, false, Option, none, some, List, [], ◌∷◌,
  ◌++◌, Bytes, ◌==◌, All, arith, append-nil, append_assoc,
}
use mathlib.Core.Path.{subst}
use bill_vpn.Tunnel.Dispatch.{has_prefix}
use bill_vpn.Gfw.{
  Outside, trim_left, trim_right, trim, remove, split_lines, rule_of, parse_embedded,
}
use bill_vpn.Gfw.Members.{In, side, Written, key_of, exception_of, parse_embedded-Written}
use bill_vpn.Gfw.Hosts.{
  Host, text, IsHost, rule_text, HasMarks, trim_left_kept, trim_kept, trim_right-head, All-imp,
  trim_space-rule, normalize_rule-rule,
}

-- A line: a comment, a host that is blocked with all below it, or one that is an exception.
pub data Entry : Type 0 where
  comment : Bytes → Entry
  rule exception : Host → Entry

abbrev pub render : Entry → Bytes
render (comment s) = b'!' ∷ s
render (rule h) = rule_text h
render (exception h) = b'@' ∷ b'@' ∷ rule_text h

abbrev pub render_all : List Entry → Bytes
render_all [] = []
render_all (e ∷ es) = render e ++ (10 ∷ render_all es)

abbrev pub IsEntry : Outside → Entry → Type 0
IsEntry o (comment s) = All (λ c. (c == 10) ≡ false) s
IsEntry o (rule h) = IsHost o h
IsEntry o (exception h) = IsHost o h

-- An entry for the pattern `*host`, on that side.
abbrev pub Holds : Bool → Bytes → Entry → Type 0
Holds bypass p (comment s) = ⊥
Holds bypass p (rule h) = (bypass ≡ false) × (b'*' ∷ text h ≡ p)
Holds bypass p (exception h) = (bypass ≡ true) × (b'*' ∷ text h ≡ p)

abbrev pub Listed : Bool → Bytes → List Entry → Type 0
Listed bypass p [] = ⊥
Listed bypass p (e ∷ es) = Holds bypass p e ⊎ Listed bypass p es

module _ (o : Outside) (marks : HasMarks o) where
  -- What an entry says.
  abbrev pattern_of : Entry → Option (Bool × Bytes)
  pattern_of (comment s) = none
  pattern_of (rule h) = some (false, b'*' ∷ text h)
  pattern_of (exception h) = some (true, b'*' ∷ text h)

  rule_of-render : (e : Entry) → IsEntry o e → rule_of o (render e) ≡ pattern_of e
  unfolding rule_of has_prefix
  rule_of-render (rule h) ok =
      rw (trim_space-rule o marks h ok, normalize_rule-rule o marks h ok) refl
  rule_of-render (exception h) ok =
      let trimmed : trim o.is_space (render (exception h)) ≡ render (exception h) =
        trim_kept o.is_space b'@' (b'@' ∷ b'|' ∷ b'|' ∷ h.first ∷ h.middle) h.last marks.2
          ok.last_plain.0.0 in
      rw (trimmed, normalize_rule-rule o marks h ok) refl
  rule_of-render (comment s) ok =
      rw (trim_left_kept o.is_space b'!' s marks.0, trim_right-head o.is_space b'!' s marks.0) refl

-- The lines that the text of the entries is split into: theirs, and an empty one.
abbrev lines_of : List Entry → List Bytes
lines_of [] = [] ∷ []
lines_of (e ∷ es) = render e ∷ lines_of es

split_lines-line :
    (curr s rest : Bytes)
    → All (λ c. (c == 10) ≡ false) s
    → split_lines curr (s ++ (10 ∷ rest)) ≡ (curr ++ s) ∷ split_lines [] rest
unfolding split_lines
split_lines-line curr [] rest h = rw (append-nil curr) refl
split_lines-line curr (c ∷ s) rest (e, h) =
    rw (e, split_lines-line (curr ++ (c ∷ [])) s rest h, append_assoc curr (c ∷ []) s) refl

render-one_line : (o : Outside) (e : Entry) → IsEntry o e → All (λ c. (c == 10) ≡ false) (render e)
render-one_line o (comment s) ok = (refl, ok)
render-one_line o (rule h) ok =
    (refl, (refl, All-imp (text h) (λ c e. ground (arith, e.1)) ok.plain))
render-one_line o (exception h) ok =
    (refl, (refl, (refl, (refl, All-imp (text h) (λ c e. ground (arith, e.1)) ok.plain))))

split_lines-render_all :
    (o : Outside) (es : List Entry)
    → All (IsEntry o) es
    → split_lines [] (render_all es) ≡ lines_of es
unfolding split_lines
split_lines-render_all o [] h = refl
split_lines-render_all o (e ∷ es) (ok, h) =
    rw (split_lines-line [] (render e) (render_all es) (render-one_line o e ok))
      (ap (λ l. render e ∷ l) (split_lines-render_all o es h))

-- What an entry's line adds.
Holds-pattern_of :
    (o : Outside) (marks : HasMarks o) (bypass : Bool) (p : Bytes) (e : Entry)
    → (pattern_of o marks e ≡ some (bypass, p)) ↔ Holds bypass p e
Holds-pattern_of o marks bypass p (comment s) = (λ h. absurd (ground (arith, h)), λ h. elim h [ ])
Holds-pattern_of o marks bypass p (rule h) = (
  λ e. (sym (ap exception_of e), ap (key_of []) e),
  λ e. ap some (ap (λ b. (b, b'*' ∷ text h)) (sym e.0) ∙ ap (λ q. (bypass, q)) e.1),
)
Holds-pattern_of o marks bypass p (exception h) = (
  λ e. (sym (ap exception_of e), ap (key_of []) e),
  λ e. ap some (ap (λ b. (b, b'*' ∷ text h)) (sym e.0) ∙ ap (λ q. (bypass, q)) e.1),
)

Written-Listed :
    (o : Outside) (marks : HasMarks o) (bypass : Bool) (p : Bytes) (es : List Entry)
    → All (IsEntry o) es
    → Written o bypass p (lines_of es) ↔ Listed bypass p es
unfolding rule_of trim_left trim_right
Written-Listed o marks bypass p [] h =
    (λ w. elim w [ inl e ↦ absurd (ground (arith, e)) | inr g ↦ elim g [ ] ], λ l. elim l [ ])
Written-Listed o marks bypass p (e ∷ es) (ok, h) =
    let (to, from) = Written-Listed o marks bypass p es h in
    let (holds, written) = Holds-pattern_of o marks bypass p e in
    let same : rule_of o (render e) ≡ pattern_of o marks e = rule_of-render o marks e ok in
    (
      λ w. elim w [ inl f ↦ inl (holds (sym same ∙ f)) | inr g ↦ inr (to g) ],
      λ l. elim l [ inl f ↦ inl (same ∙ written f) | inr g ↦ inr (from g) ],
    )

-- For a list whose decoded text is a sequence of lines, each a comment behind `!`, a rule `||host`
-- or an exception `@@||host`, where the hosts are plain names in lower case, as `IsHost` says: the
-- list is parsed, a pattern is among the exceptions exactly when it is `*host` for the host of an
-- exception, and among the blocked patterns exactly when it is `*host` for the host of a rule.
pub parse_embedded-Listed :
    (o : Outside) (raw : Bytes) (es : List Entry)
    → HasMarks o
    → All (IsEntry o) es
    → o.decode (remove o.is_space raw) ≡ some (render_all es)
    → (sets : List Bytes × List Bytes) × (parse_embedded o raw ≡ some sets)
      × ((bypass : Bool) (p : Bytes) → In p (side bypass sets) ↔ Listed bypass p es)
parse_embedded-Listed o raw es marks good decoded =
    let (sets, parsed, ends) = parse_embedded-Written o raw (render_all es) decoded in
    let lines = split_lines-render_all o es good in
    (
      sets,
      parsed,
      λ bypass p.
          let (to, from) = ends bypass p in
          let (listed, written) = Written-Listed o marks bypass p es good in
          (
            λ h. listed (subst (Written o bypass p) lines (to h)),
            λ l. from (subst (Written o bypass p) (sym lines) (written l)),
          ),
    )
