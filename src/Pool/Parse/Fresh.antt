-- ===== src/Pool/Parse/Fresh.antt =====
-- What the parser of internal/ip_pool.go accepts.
use bill_vpn.Common.{
  ℕ, zero, suc, ◌+◌, ◌-◌, ◌≤◌, ◌<◌, ◌≡◌, refl, ap, Bool, true, false, not, ◌||◌, Option, none, some,
  List, [], ◌∷◌, ◌++◌, Bytes, length, length-append, if◌then◌else◌, ltb, leb, ◌==◌, ◌>>=◌, ℤ, pos,
  ltb_ℤ, eqb_ℤ, arith, Returns, returns, Returns-bind, inl, inr, Option-cases,
}
use bill_vpn.Pattern.Ends.{expand_pattern-Returns}
use bill_vpn.Pool.Valid.{IsValid}
use bill_vpn.Pool.Parse.{
  Prefix, Net, max_ip_pool_size, walk, add_prefix, add_addrs, add_one, add_all, parse_sources,
  parse_ip_list, Source, PoolFields, choose_top, choose_attempts, choose_concurrency,
  choose_duration, zeros, fresh_pool, configure, unmarshal_pool,
}

-- A property of a result that is no error.
pub data Unless {A : Type 0} (P : A → Type 0) : Option A → Type 0 where
  failed : Unless P none
  fine : {a : A} → P a → Unless P (some a)

Unless-if :
    {A : Type 0} {P : A → Type 0} (b : Bool) {x y : Option A}
    → (b ≡ true → Unless P x)
    → (b ≡ false → Unless P y)
    → Unless P (if b then x else y)
Unless-if true h k = h refl
Unless-if false h k = k refl

Unless-bind :
    {A B : Type 0} {P : A → Type 0} {Q : B → Type 0} {m : Option B} {f : B → Option A}
    → Unless Q m
    → ((x : B) → Q x → Unless P (f x))
    → Unless P (m >>= f)
Unless-bind failed h = failed
Unless-bind (fine {a = x} q) h = h x q

abbrev IsSmall : List Bytes → Type 0
IsSmall ips = length ips ≤ max_ip_pool_size

walk-IsSmall :
    (p : Prefix) (room addr : ℕ) (ips : List Bytes)
    → length ips + room ≤ max_ip_pool_size
    → Unless IsSmall (walk p room addr ips)
unfolding walk
walk-IsSmall p zero addr ips h = failed
walk-IsSmall p (suc room) addr ips h =
    let size : length (ips ++ (p.to_text addr ∷ [])) ≡ length ips + 1 =
      length-append ips (p.to_text addr ∷ []) in
    Unless-if (addr == p.last || not (p.contains (addr + 1))) (λ e. fine (omega arith))
      (λ e. walk-IsSmall p room (addr + 1) (ips ++ (p.to_text addr ∷ [])) (omega arith))

add_addrs-IsSmall : (addrs ips : List Bytes) → IsSmall ips → Unless IsSmall (add_addrs addrs ips)
unfolding add_addrs
add_addrs-IsSmall [] ips h = fine h
add_addrs-IsSmall (a ∷ addrs) ips h =
    Unless-if (leb max_ip_pool_size (length ips)) (λ e. failed)
      (λ e. add_addrs-IsSmall addrs (ips ++ (a ∷ [])) (
        let room : length ips < max_ip_pool_size = ground (arith, e) in
        omega (arith, length-append ips (a ∷ []))))

add_one-IsSmall :
    (net : Net) (s : Bytes) (ips : List Bytes) → IsSmall ips → Unless IsSmall (add_one net s ips)
unfolding add_one add_prefix
add_one-IsSmall net s ips h =
    Unless-if (leb max_ip_pool_size (length ips)) (λ e. failed)
      (λ e.
        let room : length ips < max_ip_pool_size = ground (arith, e) in
        Unless-if (net.is_addr s) (λ f. fine (omega (arith, length-append ips (s ∷ []))))
          (λ f. elim (Option-cases (net.parse_prefix s)) [
            | inr (p, g) ↦ rw g (
                Unless-if (p.contains p.start)
                  (λ k. walk-IsSmall p (max_ip_pool_size - length ips) p.start ips (omega arith))
                  (λ k. fine h))
            | inl g ↦ elim (Option-cases (net.lookup_ip s)) [
              | inl k ↦ rw (g, k) failed
              | inr (addrs, k) ↦ rw (g, k) (add_addrs-IsSmall addrs ips h)
            ]
          ]))

add_all-IsSmall :
    (net : Net) (ss ips : List Bytes) → IsSmall ips → Unless IsSmall (add_all net ss ips)
unfolding add_all
add_all-IsSmall net [] ips h = fine h
add_all-IsSmall net (s ∷ ss) ips h =
    Unless-bind (add_one-IsSmall net s ips h) (λ more k. add_all-IsSmall net ss more k)

-- A result that is there, and of which the property holds if it is no error.
parse_sources-IsSmall :
    (net : Net) (sources ips : List Bytes)
    → IsSmall ips
    → Returns (Unless IsSmall) (parse_sources net sources ips)
unfolding parse_sources
parse_sources-IsSmall net [] ips h = returns (fine h)
parse_sources-IsSmall net (pattern ∷ sources) ips h =
    Returns-bind (expand_pattern-Returns pattern) (λ ss _.
      go ss (add_all net ss ips) (parse_sources-IsSmall net sources) (add_all-IsSmall net ss ips h))
  where
    go :
        (ss : List Bytes) (r : Option (List Bytes))
        → ((more : List Bytes)
            → IsSmall more
            → Returns (Unless IsSmall) (parse_sources net sources more))
        → Unless IsSmall r
        → Returns (Unless IsSmall) (elim r as (λ _. Option (Option (List Bytes))) [
          | none ↦ some none
          | some more ↦ parse_sources net sources more
        ])
    go ss none rec failed = returns failed
    go ss (some more) rec (fine k) = rec more k

abbrev pub Between : ℕ → ℕ → ℕ → Type 0
Between low high n = (low ≤ n) × (n ≤ high)

choose_top-Between : (top : ℤ) (n : ℕ) → Unless (Between 1 255) (choose_top top n)
unfolding choose_top
choose_top-Between top n =
    Unless-if (eqb_ℤ top (pos 0)) (λ e. fine (omega arith, omega arith))
      (λ e.
        Unless-if (not (ltb_ℤ (pos 0) top) || (ltb_ℤ (pos 255) top || ltb_ℤ (pos n) top))
          (λ f. failed) (λ f. fine (ground (arith, f), ground (arith, f))))

choose_attempts-Between : (attempts : ℤ) → Unless (Between 1 255) (choose_attempts attempts)
unfolding choose_attempts
choose_attempts-Between attempts =
    Unless-if (eqb_ℤ attempts (pos 0)) (λ e. fine (omega arith, omega arith))
      (λ e.
        Unless-if (not (ltb_ℤ (pos 0) attempts) || ltb_ℤ (pos 255) attempts) (λ f. failed)
          (λ f. fine (ground (arith, f), ground (arith, f))))

choose_concurrency-positive : (c : ℤ) → Unless (λ d. ltb_ℤ (pos 0) d ≡ true) (choose_concurrency c)
unfolding choose_concurrency
choose_concurrency-positive c =
    Unless-if (eqb_ℤ c (pos 0)) (λ e. fine refl)
      (λ e. Unless-if (ltb_ℤ c (pos 1)) (λ f. failed) (λ f. fine (ground (arith, f))))

choose_duration-positive :
    (net : Net) (default : ℤ) (text : Bytes)
    → ltb_ℤ (pos 0) default ≡ true
    → Unless (λ d. ltb_ℤ (pos 0) d ≡ true) (choose_duration net default text)
unfolding choose_duration
choose_duration-positive net default [] h = fine h
choose_duration-positive net default (c ∷ s) h = elim (Option-cases (net.parse_duration (c ∷ s))) [
  | inl e ↦ rw e failed
  | inr (d, e) ↦ rw e (Unless-if (ltb_ℤ (pos 0) d) (λ f. fine f) (λ f. failed))
]

length-zeros : (n : ℕ) → length (zeros n) ≡ n
unfolding zeros
length-zeros zero = refl
length-zeros (suc n) = ap suc (length-zeros n)

fresh_pool-IsValid : (ips : List Bytes) (top : ℕ) → top ≤ 255 → IsValid (fresh_pool ips top)
fresh_pool-IsValid ips top h = record {
  small = omega (arith, length-zeros top);
  same_size = refl;
  few = omega arith;
  inside = tt;
  weighted = tt;
  total = refl;
}

-- What holds of an accepted configuration: the pool is valid and has 1 to 1000 addresses, no
-- address works yet, as many as the count of the best fit its arrays, the numbers fit the fields
-- they are kept in and are positive, and so are the times.
pub record Accepted (c : PoolFields) : Type 0 where
  pub valid : IsValid c.pool
  pub size : Between 1 1000 (length c.pool.ips)
  pub unused : c.pool.cur_valid_ips ≡ 0
  pub places : length c.pool.best_indexes ≡ c.top_ip_count
  pub top : Between 1 255 c.top_ip_count
  pub port_range : Between 1 65535 c.port
  pub tries : Between 1 255 c.attempts
  pub waits : ltb_ℤ (pos 0) c.timeout ≡ true
  pub repeats : ltb_ℤ (pos 0) c.update_interval ≡ true
  pub workers : ltb_ℤ (pos 0) c.concurrency ≡ true

configure-Accepted :
    (net : Net) (tmp : Source) (ips : List Bytes)
    → IsSmall ips
    → Unless Accepted (configure net tmp ips)
unfolding configure
configure-Accepted net tmp [] small = failed
configure-Accepted net tmp (ip ∷ ips) small =
    Unless-if
      (ltb max_ip_pool_size (length (ip ∷ ips)) || ltb_ℤ (pos (length (ip ∷ ips))) tmp.top_ip_count)
      (λ e. failed)
      (λ e.
        Unless-if (not (ltb_ℤ (pos 0) tmp.port) || ltb_ℤ (pos 65535) tmp.port) (λ f. failed)
          (λ f. Unless-bind (choose_concurrency-positive tmp.max_concurrency) (λ c hc.
            Unless-bind (choose_top-Between tmp.top_ip_count (length (ip ∷ ips))) (λ top ht.
              Unless-bind (choose_attempts-Between tmp.attempts) (λ attempts ha.
                Unless-bind (choose_duration-positive net (pos 1000000000) tmp.timeout refl)
                  (λ t hw.
                    Unless-bind
                      (choose_duration-positive net (pos 1800000000000) tmp.update_interval refl)
                      (λ i hi. fine (record {
                        valid = fresh_pool-IsValid (ip ∷ ips) top ht.1;
                        size = (omega arith, small);
                        unused = refl;
                        places = length-zeros top;
                        top = ht;
                        port_range = (ground (arith, f), ground (arith, f));
                        tries = ha;
                        waits = hw;
                        repeats = hi;
                        workers = hc;
                      }))))))))

-- `UnmarshalJSON` returns for every decoded value, and what it accepts is as `Accepted` says.
pub unmarshal_pool-Accepted :
    (net : Net) (tmp : Source) → Returns (Unless Accepted) (unmarshal_pool net tmp)
unfolding unmarshal_pool parse_ip_list
unmarshal_pool-Accepted net tmp =
    Returns-bind (parse_sources-IsSmall net tmp.ips [] (omega arith)) (λ parsed h. finish parsed h)
  where
    finish :
        (parsed : Option (List Bytes))
        → Unless IsSmall parsed
        → Returns (Unless Accepted) (elim parsed as (λ _. Option (Option PoolFields)) [
          | none ↦ some none
          | some ips ↦ some (configure net tmp ips)
        ])
    finish none failed = returns failed
    finish (some ips) (fine h) = returns (configure-Accepted net tmp ips h)
