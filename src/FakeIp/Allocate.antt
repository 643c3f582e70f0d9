-- ===== src/FakeIp/Allocate.antt =====
-- `Allocate` of internal/fake_ip.go: it ends, keeps the invariant, takes no live entry from
-- another domain, and fails only when every address of the pool is in use.
use bill_vpn.Common.{
  ℕ, zero, suc, ◌+◌, ◌≤◌, ◌<◌, ◌≡◌, ◌≢◌, sym, ap, none, some, Bytes, Bytes-discrete, true, false,
  ◌==◌, arith, find-put, Option-cases, Bool-cases, inl, inr, dec_lt, ℕ_discrete, Returns, returns,
  Returns-if, [],
}
use bill_vpn.FakeIp.{
  Entry, Prefix, Store, Allocation, allocated, exhausted, empty_domain, is_live, lookup_entry,
  wrap_candidate, put_entry, delete_entry, assign, refresh, allocate_loop, allocate_locked,
}
use bill_vpn.FakeIp.Linked.{
  Cleans, put_entry-Linked, refresh-Linked, delete_entry-gone, delete_entry-absent,
  Cleans-delete_entry, Cleans-refl,
}
use bill_vpn.FakeIp.Valid.{IsValid, wrap_inside, wrap_past}

module _ (to_text : ℕ → Bytes) (now : ℕ) (domain : Bytes) (expires : ℕ) where
  -- The address is in use by some domain at that time.
  pub IsTaken : Store → ℕ → Type 0
  IsTaken s a =
      (e : Entry) × (lookup_entry (to_text a) s.ip_to_entry ≡ some e) × (is_live now e ≡ true)

  -- What a caller may rely on, for each result.
  pub data Outcome (s : Store) : Store × Allocation → Type 0 where
    taken :
        {t : Store} {i : Bytes}
        → IsValid to_text t
        → lookup_entry i t.ip_to_entry
          ≡ some (record { domain = domain; ip = i; expires_at = expires })
        → ((j : Bytes) (f : Entry)
            → lookup_entry j s.ip_to_entry ≡ some f
            → is_live now f ≡ true
            → f.domain ≢ domain
            → lookup_entry j t.ip_to_entry ≡ some f)
        → Outcome s (t, allocated i)
    full :
        {t : Store}
        → IsValid to_text t
        → ((a : ℕ) → s.prefix.base < a → a < s.prefix.base + s.prefix.span → IsTaken s a)
        → Outcome s (t, exhausted)
    refused : {t : Store} → domain ≡ [] → t ≡ s → Outcome s (t, empty_domain)

  module _ (s : Store) (v : IsValid to_text s)
      (absent : lookup_entry domain s.domain_to_entry ≡ none) where
    assign-Outcome :
        (t : Store) (a : ℕ)
        → Cleans now s t
        → lookup_entry domain t.domain_to_entry ≡ none
        → lookup_entry (to_text a) t.ip_to_entry ≡ none
        → s.prefix.base < a
        → a < s.prefix.base + s.prefix.span
        → Outcome s (assign to_text t domain expires a, allocated (to_text a))
    unfolding assign put_entry
    assign-Outcome t a c hd hi low high =
        let fresh : Entry = record { domain = domain; ip = to_text a; expires_at = expires } in
        let l = put_entry-Linked t fresh c.linked hd hi in
        let p = c.same_prefix in
        taken
          record {
            network = rw p v.network;
            linked = record { by_domain = l.by_domain; by_ip = l.by_ip };
            next_low = rw p (omega arith);
            next_high = rw p (omega arith);
            untouched = λ e i. absurd (start e);
            placed = λ i e h. elim (Bytes-discrete (to_text a) i) [
              | yes same ↦ (a, sym same, rw p low, rw p high)
              | no other ↦ rw p (
                  v.placed i e (
                    c.only_removes i e
                      (grind (arith, find-put Bytes-discrete (to_text a) i fresh t.ip_to_entry))))
            ];
          }
          (ground (arith, find-put Bytes-discrete (to_text a) (to_text a) fresh t.ip_to_entry))
          (λ j f h live other. grind (
            arith,
            find-put Bytes-discrete (to_text a) j fresh t.ip_to_entry,
            c.keeps_live j f h live,
          ))
      where
        start : a + 1 ≡ t.prefix.base + 1 → ⊥
        start e = omega (arith, ap (λ (q : Prefix). q.base) c.same_prefix)

    reuse :
        (a : ℕ) (e : Entry)
        → s.prefix.base < a
        → a < s.prefix.base + s.prefix.span
        → lookup_entry (to_text a) s.ip_to_entry ≡ some e
        → is_live now e ≡ false
        → Outcome s (assign to_text (delete_entry s e) domain expires a, allocated (to_text a))
    reuse a e low high found dead =
        let (place, linked) = v.linked.by_ip (to_text a) e found in
        let (gone, gone') = delete_entry-gone s e v.linked (cc) in
        assign-Outcome (delete_entry s e) a (Cleans-delete_entry now s e v.linked linked dead)
          (delete_entry-absent s e domain absent) (rw (← place) gone) low high

    module _ (start : ℕ) (low : s.prefix.base < start)
        (high : start ≤ s.prefix.base + s.prefix.span)
        (virgin : start ≡ s.prefix.base + 1
          → (i : Bytes) → lookup_entry i s.ip_to_entry ≡ none) where
      -- The loop stands at `c`, all addresses from `start` on to it are taken, and the fuel left
      -- is at least the number of the other addresses.
      data Standing (fuel c : ℕ) : Type 0 where
        before :
            start ≤ c
            → ((a : ℕ) → start ≤ a → a < c → IsTaken s a)
            → s.prefix.span + start ≤ fuel + c
            → Standing fuel c
        wrapped :
            c < start
            → ((a : ℕ) → start ≤ a → a < s.prefix.base + s.prefix.span → IsTaken s a)
            → ((a : ℕ) → s.prefix.base < a → a < c → IsTaken s a)
            → start ≤ fuel + c
            → Standing fuel c

      start-untaken : start ≡ s.prefix.base + 1 → IsTaken s start → ⊥
      unfolding IsTaken
      start-untaken e (f, found, live) = ground (arith, virgin e (to_text start))

      Standing-wrap :
          (fuel : ℕ)
          → Standing fuel (s.prefix.base + s.prefix.span)
          → Standing fuel (s.prefix.base + 1)
      Standing-wrap fuel (before below seen enough) =
          let room = v.network.room in
          elim (ℕ_discrete start (s.prefix.base + 1)) [
            | yes e ↦ absurd (start-untaken e (seen start (omega arith) (omega arith)))
            | no n ↦ wrapped (omega arith) seen (λ a l h. absurd (omega arith)) (omega arith)
          ]
      Standing-wrap fuel (wrapped below seen more enough) = absurd (omega arith)

      -- The candidate behind the wrap, with all before it taken.
      Standing-candidate :
          (fuel c : ℕ)
          → c ≤ s.prefix.base + s.prefix.span
          → s.prefix.base < c
          → Standing fuel c
          → (s.prefix.base < wrap_candidate s.prefix c)
            × (wrap_candidate s.prefix c < s.prefix.base + s.prefix.span)
            × Standing fuel (wrap_candidate s.prefix c)
      Standing-candidate fuel c top bottom st =
          let room = v.network.room in
          elim (ℕ_discrete c (s.prefix.base + s.prefix.span)) [
            | yes end ↦
                rw (end, wrap_past s.prefix v.network)
                  (omega arith, omega arith, Standing-wrap fuel (rw (← end) st))
            | no inside ↦
                rw (wrap_inside s.prefix c v.network (omega arith) (omega arith))
                  (bottom, omega arith, st)
          ]

      Standing-step :
          (fuel c : ℕ) → IsTaken s c → c + 1 ≢ start → Standing (suc fuel) c → Standing fuel (c + 1)
      Standing-step fuel c here other (before below seen enough) =
          before (omega arith) (λ a l h. extend a l h) (omega arith)
        where
          extend : (a : ℕ) → start ≤ a → a < c + 1 → IsTaken s a
          extend a l h = elim (ℕ_discrete a c) [ yes e ↦ rw e here | no n ↦ seen a l (omega arith) ]
      Standing-step fuel c here other (wrapped below seen more enough) =
          wrapped (omega arith) seen extend (omega arith)
        where
          extend : (a : ℕ) → s.prefix.base < a → a < c + 1 → IsTaken s a
          extend a l h = elim (ℕ_discrete a c) [ yes e ↦ rw e here | no n ↦ more a l (omega arith) ]

      Standing-all :
          (fuel c : ℕ)
          → IsTaken s c
          → c + 1 ≡ start
          → Standing fuel c
          → (a : ℕ) → s.prefix.base < a
          → a < s.prefix.base + s.prefix.span
          → IsTaken s a
      Standing-all fuel c here last (before below seen enough) = absurd (omega arith)
      Standing-all fuel c here last (wrapped below seen more enough) = λ a l h.
          elim (ℕ_discrete a c) [
            | yes e ↦ rw e here
            | no n ↦ elim (dec_lt a c) [ yes lt ↦ more a l lt | no ge ↦ seen a (omega arith) h ]
          ]

      allocate_loop-Returns :
          (fuel c : ℕ)
          → c ≤ s.prefix.base + s.prefix.span
          → s.prefix.base < c
          → Standing fuel c
          → Returns (Outcome s) (allocate_loop to_text fuel now domain expires start c s)
      unfolding allocate_loop IsTaken
      allocate_loop-Returns zero c top bottom (before below seen enough) = absurd (omega arith)
      allocate_loop-Returns zero c top bottom (wrapped below seen more enough) =
          absurd (omega arith)
      allocate_loop-Returns (suc fuel) c top bottom st =
          let a = wrap_candidate s.prefix c in
          let (lo, hi, st') = Standing-candidate (suc fuel) c top bottom st in
          elim (Option-cases (lookup_entry (to_text a) s.ip_to_entry)) [
            | inl free ↦
                rw (allocate_loop, free)
                  (returns (assign-Outcome s a (Cleans-refl now s v.linked) absent free lo hi))
            | inr (e, found) ↦ elim (Bool-cases (is_live now e)) [
              | inl live ↦
                  let here : IsTaken s a = (e, found, live) in
                  rw (allocate_loop, found, live)
                    (Returns-if (a + 1 == start)
                      (λ last. returns (full v (Standing-all (suc fuel) a here (ground arith) st')))
                      (λ more.
                        allocate_loop-Returns fuel (a + 1) (omega arith) (omega arith)
                          (Standing-step fuel a here (ground arith) st')))
              | inr dead ↦ rw (allocate_loop, found, dead) (returns (reuse a e lo hi found dead))
            ]
          ]

  module _ (s : Store) (v : IsValid to_text s) where
    refresh-Outcome :
        (e : Entry)
        → lookup_entry domain s.domain_to_entry ≡ some e
        → Outcome s (refresh s domain expires e, allocated e.ip)
    unfolding refresh
    refresh-Outcome e found =
        let fresh : Entry = record e { expires_at = expires } in
        let l = refresh-Linked s domain expires e v.linked found in
        let (same, at_ip) = v.linked.by_domain domain e found in
        taken
          record {
            network = v.network;
            linked = record { by_domain = l.by_domain; by_ip = l.by_ip };
            next_low = v.next_low;
            next_high = v.next_high;
            untouched = λ at i. absurd (ground (arith, v.untouched at e.ip));
            placed = λ i f h. elim (Bytes-discrete e.ip i) [
              | yes eq ↦ rw (← eq) (v.placed e.ip e at_ip)
              | no other ↦
                  v.placed i f (grind (arith, find-put Bytes-discrete e.ip i fresh s.ip_to_entry))
            ];
          }
          (grind (arith, find-put Bytes-discrete e.ip e.ip fresh s.ip_to_entry))
          (λ j f h live other.
            grind (arith, find-put Bytes-discrete e.ip j fresh s.ip_to_entry, v.linked.by_ip j f h))

    pub allocate_locked-Returns : Returns (Outcome s) (allocate_locked to_text now domain expires s)
    unfolding allocate_locked
    allocate_locked-Returns = elim (Option-cases (lookup_entry domain s.domain_to_entry)) [
      | inl absent ↦
          rw (allocate_locked, absent)
            (allocate_loop-Returns s v absent s.next v.next_low v.next_high v.untouched
              (s.prefix.span + 2) s.next v.next_high v.next_low
              (before (omega arith) (λ a l h. absurd (omega arith)) (omega arith)))
      | inr (e, found) ↦ rw (allocate_locked, found) (returns (refresh-Outcome e found))
    ]

    -- What holds behind the cleanup holds of the store before it.
    pub cleaned-Outcome :
        (t : Store) (r : Store × Allocation)
        → Cleans now s t
        → Outcome t r
        → domain ≢ []
        → Outcome s r
    unfolding IsTaken
    cleaned-Outcome t _ c (taken w found keeps) full_domain =
        taken w found (λ j f h live. keeps j f (c.keeps_live j f h live) live)
    cleaned-Outcome t _ c (full w all) full_domain = full w (λ a low high.
        let (e, found, live) = all a (rw c.same_prefix low) (rw c.same_prefix high) in
        (e, c.only_removes (to_text a) e found, live))
    cleaned-Outcome t _ c (refused e same) full_domain = absurd (full_domain e)
