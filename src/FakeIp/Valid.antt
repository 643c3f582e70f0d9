-- ===== src/FakeIp/Valid.antt =====
-- The invariant of the store of internal/fake_ip.go: linked maps, addresses inside the prefix, and
-- a cursor that stands in the prefix or one past it, and at its first place only while the store
-- is empty. That last clause is why the loop of `Allocate` ends.
use bill_vpn.Common.{
  ℕ, ◌+◌, ◌*◌, ◌/◌, ◌≤◌, ◌<◌, ◌≡◌, refl, ap, none, some, Bytes, true, false, arith, find,
  Option-cases, inl, inr,
}
use native.Mathlib.Nat.{div-eq_of_lt-le}
use bill_vpn.FakeIp.{Entry, Prefix, Store, lookup_entry, contains, wrap_candidate, new_store}
use bill_vpn.FakeIp.Linked.{Linked, Cleans}

-- A network address is a multiple of the number of addresses; there is room for one host.
pub record IsNetwork (p : Prefix) : Type 0 where
  pub index : ℕ
  pub aligned : p.base ≡ index * p.span
  pub room : 2 ≤ p.span

quotient :
    (p : Prefix) (n : IsNetwork p) (k a : ℕ)
    → p.base + k * p.span ≤ a
    → a < p.base + k * p.span + p.span
    → a / p.span ≡ n.index + k
quotient p n k a low high = let e = n.aligned in div-eq_of_lt-le p.span (grind arith) (grind arith)

contains_inside :
    (p : Prefix) (a : ℕ) → IsNetwork p → p.base ≤ a → a < p.base + p.span → contains p a ≡ true
unfolding contains
contains_inside p a n low high =
    let room = n.room in
    ground (
      arith,
      quotient p n 0 a (omega arith) (omega arith),
      quotient p n 0 p.base (omega arith) (omega arith),
    )

contains_past : (p : Prefix) → IsNetwork p → contains p (p.base + p.span) ≡ false
unfolding contains
contains_past p n =
    let room = n.room in
    ground (
      arith,
      quotient p n 1 (p.base + p.span) (omega arith) (omega arith),
      quotient p n 0 p.base (omega arith) (omega arith),
    )

pub wrap_inside :
    (p : Prefix) (a : ℕ) → IsNetwork p → p.base ≤ a → a < p.base + p.span → wrap_candidate p a ≡ a
unfolding wrap_candidate
wrap_inside p a n low high = rw (contains_inside p a n low high)

pub wrap_past : (p : Prefix) → IsNetwork p → wrap_candidate p (p.base + p.span) ≡ p.base + 1
unfolding wrap_candidate
wrap_past p n = rw (contains_past p n)

module _ (to_text : ℕ → Bytes) where
  pub record IsValid (s : Store) : Type 0 where
    pub network : IsNetwork s.prefix
    pub linked : Linked s
    pub next_low : s.prefix.base < s.next
    pub next_high : s.next ≤ s.prefix.base + s.prefix.span
    pub untouched : s.next ≡ s.prefix.base + 1 → (i : Bytes) → lookup_entry i s.ip_to_entry ≡ none
    pub placed :
        (i : Bytes) (e : Entry)
        → lookup_entry i s.ip_to_entry ≡ some e
        → (a : ℕ) × (i ≡ to_text a) × (s.prefix.base < a) × (a < s.prefix.base + s.prefix.span)

  pub new_store-IsValid : (p : Prefix) → IsNetwork p → IsValid (new_store p)
  unfolding new_store find
  new_store-IsValid p n =
      let room = n.room in
      record {
        network = n;
        linked = record { by_domain = λ d e h. cc; by_ip = λ i e h. cc };
        next_low = omega arith;
        next_high = omega arith;
        untouched = λ e i. refl;
        placed = λ i e h. cc;
      }

  pub IsValid-Cleans : (now : ℕ) (s t : Store) → IsValid s → Cleans now s t → IsValid t
  IsValid-Cleans now s t v c =
      let p = c.same_prefix in
      let n = c.same_next in
      record {
        network = rw p v.network;
        linked = c.linked;
        next_low = rw (p, n) v.next_low;
        next_high = rw (p, n) v.next_high;
        untouched = λ e i. still i (v.untouched (omega (arith, ap (λ (q : Prefix). q.base) p)) i);
        placed = λ i e h. rw p (v.placed i e (c.only_removes i e h));
      }
    where
      still :
          (i : Bytes) → lookup_entry i s.ip_to_entry ≡ none → lookup_entry i t.ip_to_entry ≡ none
      still i none_s = elim (Option-cases (lookup_entry i t.ip_to_entry)) [
        | inl e ↦ e
        | inr (f, e) ↦ absurd (ground (arith, c.only_removes i f e))
      ]
