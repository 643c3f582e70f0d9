-- ===== src/FakeIp/Linked.antt =====
-- The two maps of the store of internal/fake_ip.go hold the same entries, each under its domain
-- and under its address; what each operation on the maps does to that.
use bill_vpn.Common.{
  ℕ, ◌≡◌, ◌≢◌, ◌∙◌, refl, true, false, none, some, List, [], ◌∷◌, Bytes, Bytes-discrete, find-put,
  find-delete, ite, arith, Option-cases, Bool-cases, inl, inr, map,
}
use bill_vpn.FakeIp.{
  Entry, Store, is_live, lookup_entry, drop_domain, drop_ip, delete_entry, cleanup_key,
  cleanup_keys, cleanup_expired, put_entry, refresh,
}

pub record Linked (s : Store) : Type 0 where
  pub by_domain :
      (d : Bytes) (e : Entry)
      → lookup_entry d s.domain_to_entry ≡ some e
      → (e.domain ≡ d) × (lookup_entry e.ip s.ip_to_entry ≡ some e)
  pub by_ip :
      (i : Bytes) (e : Entry)
      → lookup_entry i s.ip_to_entry ≡ some e
      → (e.ip ≡ i) × (lookup_entry e.domain s.domain_to_entry ≡ some e)

-- What a lookup finds behind the two conditional deletions.
lookup-drop_domain :
    (e : Entry) (m : List (Bytes × Entry)) (k : Bytes)
    → lookup_entry k (drop_domain e m) ≡ elim (lookup_entry e.domain m) [
      | none ↦ lookup_entry k m
      | some c ↦
          ite
            (Bytes-discrete c.ip e.ip)
            (ite (Bytes-discrete e.domain k) none (lookup_entry k m))
            (lookup_entry k m)
    ]
unfolding drop_domain
lookup-drop_domain e m k = ground (arith, find-delete Bytes-discrete e.domain k m)

lookup-drop_ip :
    (e : Entry) (m : List (Bytes × Entry)) (k : Bytes)
    → lookup_entry k (drop_ip e m) ≡ elim (lookup_entry e.ip m) [
      | none ↦ lookup_entry k m
      | some c ↦
          ite
            (Bytes-discrete c.domain e.domain)
            (ite (Bytes-discrete e.ip k) none (lookup_entry k m))
            (lookup_entry k m)
    ]
unfolding drop_ip
lookup-drop_ip e m k = ground (arith, find-delete Bytes-discrete e.ip k m)

pub delete_entry-Linked : (s : Store) (e : Entry) → Linked s → Linked (delete_entry s e)
unfolding delete_entry
delete_entry-Linked s e l = record {
  by_domain = λ d f h. grind (
    arith,
    lookup-drop_domain e s.domain_to_entry d,
    lookup-drop_ip e s.ip_to_entry f.ip,
    l.by_domain,
    l.by_ip,
  );
  by_ip = λ i f h. grind (
    arith,
    lookup-drop_ip e s.ip_to_entry i,
    lookup-drop_domain e s.domain_to_entry f.domain,
    l.by_domain,
    l.by_ip,
  );
}

pub delete_entry-sub :
    (s : Store) (e : Entry) (i : Bytes) (f : Entry)
    → lookup_entry i (delete_entry s e).ip_to_entry ≡ some f
    → lookup_entry i s.ip_to_entry ≡ some f
unfolding delete_entry
delete_entry-sub s e i f h = grind (arith, lookup-drop_ip e s.ip_to_entry i)

-- Every binding but that of the entry stays.
pub delete_entry-keeps :
    (s : Store) (e : Entry) (i : Bytes) (f : Entry)
    → Linked s
    → lookup_entry i s.ip_to_entry ≡ some f
    → f.domain ≢ e.domain
    → lookup_entry i (delete_entry s e).ip_to_entry ≡ some f
unfolding delete_entry
delete_entry-keeps s e i f l h other = grind (arith, lookup-drop_ip e s.ip_to_entry i, l.by_ip)

-- The entry itself goes from both maps.
pub delete_entry-gone :
    (s : Store) (e : Entry)
    → Linked s
    → lookup_entry e.ip s.ip_to_entry ≡ some e
    → (lookup_entry e.ip (delete_entry s e).ip_to_entry ≡ none)
      × (lookup_entry e.domain (delete_entry s e).domain_to_entry ≡ none)
unfolding delete_entry
delete_entry-gone s e l h = (
  grind (arith, lookup-drop_ip e s.ip_to_entry e.ip, l.by_ip),
  grind (arith, lookup-drop_domain e s.domain_to_entry e.domain, l.by_ip),
)

pub delete_entry-absent :
    (s : Store) (e : Entry) (d : Bytes)
    → lookup_entry d s.domain_to_entry ≡ none
    → lookup_entry d (delete_entry s e).domain_to_entry ≡ none
unfolding delete_entry
delete_entry-absent s e d h = grind (arith, lookup-drop_domain e s.domain_to_entry d)

pub put_entry-Linked :
    (s : Store) (e : Entry)
    → Linked s
    → lookup_entry e.domain s.domain_to_entry ≡ none
    → lookup_entry e.ip s.ip_to_entry ≡ none
    → Linked (put_entry s e)
unfolding put_entry
put_entry-Linked s e l hd hi = record {
  by_domain = λ d f h. grind (
    arith,
    find-put Bytes-discrete e.domain d e s.domain_to_entry,
    find-put Bytes-discrete e.ip f.ip e s.ip_to_entry,
    l.by_domain,
  );
  by_ip = λ i f h. grind (
    arith,
    find-put Bytes-discrete e.ip i e s.ip_to_entry,
    find-put Bytes-discrete e.domain f.domain e s.domain_to_entry,
    l.by_ip,
  );
}

pub refresh-Linked :
    (s : Store) (d : Bytes) (t : ℕ) (e : Entry)
    → Linked s
    → lookup_entry d s.domain_to_entry ≡ some e
    → Linked (refresh s d t e)
unfolding refresh
refresh-Linked s d t e l he =
    let fresh : Entry = record e { expires_at = t } in
    record {
      by_domain = λ d' f h. grind (
        arith,
        find-put Bytes-discrete d d' fresh s.domain_to_entry,
        find-put Bytes-discrete e.ip f.ip fresh s.ip_to_entry,
        l.by_domain,
      );
      by_ip = λ i f h. grind (
        arith,
        find-put Bytes-discrete e.ip i fresh s.ip_to_entry,
        find-put Bytes-discrete d f.domain fresh s.domain_to_entry,
        l.by_domain,
        l.by_ip,
      );
    }

-- What the cleanup at one time does: it only removes bindings, and no live one.
pub record Cleans (now : ℕ) (s t : Store) : Type 0 where
  pub linked : Linked t
  pub same_prefix : t.prefix ≡ s.prefix
  pub same_next : t.next ≡ s.next
  pub only_removes :
      (i : Bytes) (f : Entry)
      → lookup_entry i t.ip_to_entry ≡ some f
      → lookup_entry i s.ip_to_entry ≡ some f
  pub keeps_live :
      (i : Bytes) (f : Entry)
      → lookup_entry i s.ip_to_entry ≡ some f
      → is_live now f ≡ true
      → lookup_entry i t.ip_to_entry ≡ some f

pub Cleans-refl : (now : ℕ) (s : Store) → Linked s → Cleans now s s
Cleans-refl now s l = record {
  linked = l;
  same_prefix = refl;
  same_next = refl;
  only_removes = λ i f h. h;
  keeps_live = λ i f h live. h;
}

pub Cleans-delete_entry :
    (now : ℕ) (s : Store) (e : Entry)
    → Linked s
    → lookup_entry e.domain s.domain_to_entry ≡ some e
    → is_live now e ≡ false
    → Cleans now s (delete_entry s e)
Cleans-delete_entry now s e l he dead = record {
  linked = delete_entry-Linked s e l;
  same_prefix = unfold delete_entry in refl;
  same_next = unfold delete_entry in refl;
  only_removes = delete_entry-sub s e;
  keeps_live = λ i f h live. delete_entry-keeps s e i f l h (λ same. grind (arith, l.by_ip i f h));
}

Cleans-cleanup_key :
    (now : ℕ) (k : Bytes) (s : Store) → Linked s → Cleans now s (cleanup_key now k s)
unfolding cleanup_key
Cleans-cleanup_key now k s l = elim (Option-cases (lookup_entry k s.domain_to_entry)) [
  | inl e ↦ rw (e, cleanup_key) (Cleans-refl now s l)
  | inr (f, e) ↦ elim (Bool-cases (is_live now f)) [
    | inl live ↦ rw (e, cleanup_key, live) (Cleans-refl now s l)
    | inr dead ↦
        rw (e, cleanup_key, dead)
          (Cleans-delete_entry now s f l (ground (arith, l.by_domain k f e)) dead)
  ]
]

pub Cleans-trans : (now : ℕ) (s t u : Store) → Cleans now s t → Cleans now t u → Cleans now s u
Cleans-trans now s t u a b = record {
  linked = b.linked;
  same_prefix = b.same_prefix ∙ a.same_prefix;
  same_next = b.same_next ∙ a.same_next;
  only_removes = λ i f h. a.only_removes i f (b.only_removes i f h);
  keeps_live = λ i f h live. b.keeps_live i f (a.keeps_live i f h live) live;
}

Cleans-cleanup_keys :
    (now : ℕ) (ks : List Bytes) (s : Store) → Linked s → Cleans now s (cleanup_keys now ks s)
unfolding cleanup_keys
Cleans-cleanup_keys now [] s l = Cleans-refl now s l
Cleans-cleanup_keys now (k ∷ ks) s l =
    let one = Cleans-cleanup_key now k s l in
    Cleans-trans now s _ _ one (Cleans-cleanup_keys now ks _ one.linked)

pub Cleans-cleanup_expired : (now : ℕ) (s : Store) → Linked s → Cleans now s (cleanup_expired now s)
unfolding cleanup_expired
Cleans-cleanup_expired now s l = Cleans-cleanup_keys now (map (λ b. b.0) s.domain_to_entry) s l
