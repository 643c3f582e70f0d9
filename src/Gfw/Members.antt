-- ===== src/Gfw/Members.antt =====
-- Which patterns the list of internal/gfwlist.go holds.
use bill_vpn.Common.{
  ◌≡◌, refl, sym, ap, ◌∙◌, ◌⊎◌, inl, inr, ◌↔◌, Bool, true, false, Option, none, some, List, [], ◌∷◌,
  Bytes, Bytes-discrete, if◌then◌else◌, ite, arith,
}
use bill_vpn.Gfw.{
  Outside, remove, split_lines, rule_of, less, insert_key, add_rule, collect, parse_embedded,
}

abbrev pub In : Bytes → List Bytes → Type 0
In p [] = ⊥
In p (x ∷ l) = (x ≡ p) ⊎ In p l

ite-In :
    {P : Type 0} (p : Bytes) (d : Dec P) (x y : List Bytes) → In p (ite d x y) → In p x ⊎ In p y
ite-In p (yes e) x y h = inl h
ite-In p (no e) x y h = inr h

if-In : (p : Bytes) (b : Bool) (x y : List Bytes) → In p (if b then x else y) → In p x ⊎ In p y
if-In p true x y h = inl h
if-In p false x y h = inr h

In-ite :
    {P : Type 0} (p : Bytes) (d : Dec P) (x y : List Bytes)
    → (P → In p x)
    → In p y
    → In p (ite d x y)
In-ite p (yes e) x y h k = h e
In-ite p (no e) x y h k = k

In-if : (p : Bytes) (b : Bool) (x y : List Bytes) → In p x → In p y → In p (if b then x else y)
In-if p true x y h k = h
In-if p false x y h k = k

insert_key-In : (p k : Bytes) (keys : List Bytes) → In p (insert_key k keys) → (k ≡ p) ⊎ In p keys
unfolding insert_key
insert_key-In p k [] (inl e) = inl e
insert_key-In p k [] (inr h) = elim h [ ]
insert_key-In p k (j ∷ keys) h = elim (ite-In p (Bytes-discrete k j) (j ∷ keys) _ h) [
  | inl old ↦ inr old
  | inr new ↦ elim (if-In p (less k j) (k ∷ j ∷ keys) _ new) [
    | inl front ↦ front
    | inr (inl e) ↦ inr (inl e)
    | inr (inr behind) ↦ elim (insert_key-In p k keys behind) [
      | inl e ↦ inl e
      | inr old ↦ inr (inr old)
    ]
  ]
]

In-insert_key : (p k : Bytes) (keys : List Bytes) → (k ≡ p) ⊎ In p keys → In p (insert_key k keys)
unfolding insert_key
In-insert_key p k [] h = h
In-insert_key p k (j ∷ keys) h =
    In-ite p (Bytes-discrete k j) (j ∷ keys) _ (λ e. same e h)
      (In-if p (less k j) (k ∷ j ∷ keys) _ h (behind (λ g. In-insert_key p k keys g) h))
  where
    same : k ≡ j → (k ≡ p) ⊎ In p (j ∷ keys) → In p (j ∷ keys)
    same e (inl f) = inl (sym e ∙ f)
    same e (inr g) = g

    behind :
        ((k ≡ p) ⊎ In p keys → In p (insert_key k keys))
        → (k ≡ p) ⊎ In p (j ∷ keys)
        → In p (j ∷ insert_key k keys)
    behind rec (inl f) = inr (rec (inl f))
    behind rec (inr (inl g)) = inl g
    behind rec (inr (inr g)) = inr (rec (inr g))

-- The patterns of one side: the exceptions, or those that are blocked.
abbrev pub side : Bool → List Bytes × List Bytes → List Bytes
side true sets = sets.1
side false sets = sets.0

-- Some line has the pattern on that side.
abbrev pub Written : Outside → Bool → Bytes → List Bytes → Type 0
Written o exception p [] = ⊥
Written o exception p (line ∷ lines) =
    (rule_of o line ≡ some (exception, p)) ⊎ Written o exception p lines

abbrev pub key_of : Bytes → Option (Bool × Bytes) → Bytes
key_of p none = p
key_of p (some (exception, q)) = q

abbrev pub exception_of : Option (Bool × Bytes) → Bool
exception_of none = false
exception_of (some (exception, q)) = exception

-- What one line adds.
add_rule-In :
    (exception : Bool) (p : Bytes) (r : Option (Bool × Bytes)) (sets : List Bytes × List Bytes)
    → In p (side exception (add_rule r sets))
      ↔ ((r ≡ some (exception, p)) ⊎ In p (side exception sets))
unfolding add_rule
add_rule-In exception p none sets =
    (λ h. inr h, λ h. elim h [ inl e ↦ absurd (ground (arith, e)) | inr g ↦ g ])
add_rule-In true p (some (true, q)) (blocked, bypass) = (
  λ h. elim (insert_key-In p q bypass h) [
    | inl e ↦ inl (ap (λ z. some (true, z)) e)
    | inr g ↦ inr g
  ],
  λ h. In-insert_key p q bypass (elim h [ inl e ↦ inl (ap (key_of p) e) | inr g ↦ inr g ]),
)
add_rule-In false p (some (false, q)) (blocked, bypass) = (
  λ h. elim (insert_key-In p q blocked h) [
    | inl e ↦ inl (ap (λ z. some (false, z)) e)
    | inr g ↦ inr g
  ],
  λ h. In-insert_key p q blocked (elim h [ inl e ↦ inl (ap (key_of p) e) | inr g ↦ inr g ]),
)
add_rule-In true p (some (false, q)) (blocked, bypass) = (
  λ h. inr h,
  λ h. elim h [
    | inl e ↦ let f : false ≡ true = ap exception_of e in absurd (ground (arith, f))
    | inr g ↦ g
  ],
)
add_rule-In false p (some (true, q)) (blocked, bypass) = (
  λ h. inr h,
  λ h. elim h [
    | inl e ↦ let f : true ≡ false = ap exception_of e in absurd (ground (arith, f))
    | inr g ↦ g
  ],
)

collect-In :
    (o : Outside) (exception : Bool) (p : Bytes) (lines : List Bytes)
    (sets : List Bytes × List Bytes)
    → In p (side exception (collect o lines sets))
      ↔ (Written o exception p lines ⊎ In p (side exception sets))
unfolding collect
collect-In o exception p [] sets = (λ h. inr h, λ h. elim h [ inl w ↦ elim w [ ] | inr g ↦ g ])
collect-In o exception p (line ∷ lines) sets =
    let (to, from) = collect-In o exception p lines (add_rule (rule_of o line) sets) in
    let (add, kept) = add_rule-In exception p (rule_of o line) sets in
    (
      λ h. elim (to h) [
        | inl w ↦ inl (inr w)
        | inr g ↦ elim (add g) [ inl e ↦ inl (inl e) | inr old ↦ inr old ]
      ],
      λ h. elim h [
        | inl (inl e) ↦ from (inr (kept (inl e)))
        | inl (inr w) ↦ from (inl w)
        | inr old ↦ from (inr (kept (inr old)))
      ],
    )

-- If the text decodes, the list is parsed, and a pattern is among the exceptions exactly when a
-- line that is one has it, and among the blocked patterns exactly when another line has it.
pub parse_embedded-Written :
    (o : Outside) (raw text : Bytes)
    → o.decode (remove o.is_space raw) ≡ some text
    → (sets : List Bytes × List Bytes) × (parse_embedded o raw ≡ some sets)
      × ((exception : Bool) (p : Bytes)
          → In p (side exception sets) ↔ Written o exception p (split_lines [] text))
unfolding parse_embedded
parse_embedded-Written o raw text decoded =
    (collect o (split_lines [] text) ([], []), rw decoded refl, λ exception p. ends exception p)
  where
    ends :
        (exception : Bool) (p : Bytes)
        → In p (side exception (collect o (split_lines [] text) ([], [])))
          ↔ Written o exception p (split_lines [] text)
    ends true p =
        let (to, from) = collect-In o true p (split_lines [] text) ([], []) in
        (λ h. elim (to h) [ inl w ↦ w | inr g ↦ elim g [ ] ], λ w. from (inl w))
    ends false p =
        let (to, from) = collect-In o false p (split_lines [] text) ([], []) in
        (λ h. elim (to h) [ inl w ↦ w | inr g ↦ elim g [ ] ], λ w. from (inl w))
