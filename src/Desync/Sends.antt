-- ===== src/Desync/Sends.antt =====
-- What `desyncSend` leaves behind when its system calls succeed.
use bill_vpn.Common.{
  ℕ, zero, suc, ◌+◌, ◌-◌, ◌≤◌, ◌<◌, ◌≡◌, refl, ◌⊎◌, inl, inr, Bool, true, false, some, List, [],
  ◌∷◌, ◌++◌, Bytes, length, take, drop, slice, slice_value, take_of_length-le, take-append_length,
  length-take, length-append, length-drop, arith, ℤ, pos, ap, sym, ◌∙◌, Returns, returns,
  Returns-bind,
}
use native.Mathlib.Nat.{lt-div-mul-add}
use bill_vpn.Fragment.Dot.{find_last_dot-Returns}
use bill_vpn.Fragment.Deliver.{cut_name}
use bill_vpn.Desync.{
  zeros, copy, Syscall, set_ttl, gift, sleep_for, overwrite, write_rest, Splice, moved, splice_loop,
  Ending, done, Outcomes, mmap_len, await, send_with_noise, fake_data, least_sleep, then_write,
  desync_send,
}

length-zeros : (n : ℕ) → length (zeros n) ≡ n
length-zeros zero = refl
length-zeros (suc n) = ap suc (length-zeros n)

drop-zeros : (k n : ℕ) → drop k (zeros n) ≡ zeros (n - k)
drop-zeros zero n = ap zeros (omega arith)
drop-zeros (suc k) zero = ap zeros {x = 0} {y = 0 - suc k} (omega arith)
drop-zeros (suc k) (suc n) = drop-zeros k n ∙ ap zeros (omega arith)

-- A copy of what fits.
copy_fits :
    (dst src : Bytes) → length src ≤ length dst → copy dst src ≡ src ++ drop (length src) dst
copy_fits dst src h = rw (take_of_length-le (length dst) src h)

take-copy : (dst src : Bytes) → length src ≤ length dst → take (length src) (copy dst src) ≡ src
take-copy dst src h = rw (copy_fits dst src h, take-append_length src (drop (length src) dst))

length-copy : (dst src : Bytes) → length (copy dst src) ≡ length dst
length-copy dst src = omega (
  arith,
  length-append (take (length dst) src) (drop (length src) dst),
  length-take (length dst) src,
  length-drop (length src) dst,
)

mmap_len-fits : (page n : ℕ) → 0 < page → n ≤ mmap_len page n
unfolding mmap_len
mmap_len-fits page n h = omega (arith, lt-div-mul-add {a = n + page - 1} h)

-- The calls that hand the first part over, then the rest: the destination's end of the stream gets
-- the page's last content and the rest, which are the packet. The page's first content, sent with
-- the low TTL, is the packet up to the name and zeros from there, or the packet itself.
unfoldable pub HidesName : Bytes → ℕ → Bytes → Type 0
HidesName packet n fake =
    (fake ≡ take n packet ++ zeros (length fake - n)) ⊎ (fake ≡ take (length fake) packet)

unfoldable pub Noisy : Bytes → ℕ → ℤ → ℤ → ℤ → List Syscall × Ending → Type 0
Noisy packet n fake_ttl ttl sleep r =
    (fake page after rest : Bytes) × (r ≡ (
      set_ttl fake_ttl
          ∷ gift page (length fake)
          ∷ sleep_for (least_sleep sleep)
          ∷ overwrite after
          ∷ set_ttl ttl
          ∷ write_rest rest
          ∷ [],
      done,
    ))
    × (take (length fake) page ≡ fake)
    × (take (length fake) after ++ rest ≡ packet)
    × (n ≤ length fake)
    × HidesName packet n fake

pub fake_data-HidesName :
    (packet before : Bytes) (n : ℕ) (found : Bool)
    → n ≤ length before
    → n ≤ length packet
    → before ≡ take (length before) packet
    → Returns
        (λ f. (length f ≡ length before) × HidesName packet n f)
        (fake_data packet (pos n) before found)
unfolding fake_data HidesName
fake_data-HidesName packet before n false low fits whole = returns (refl, inr whole)
fake_data-HidesName packet before n true low fits whole =
    let head = take n packet in
    let size : length head ≡ n = omega (arith, length-take n packet) in
    let blank = zeros (length before) in
    let room : length head ≤ length blank = omega (arith, length-zeros (length before)) in
    let k : length (copy blank head) ≡ length before =
      length-copy blank head ∙ length-zeros (length before) in
    let tail : drop (length head) blank ≡ zeros (length (copy blank head) - n) =
      ap (λ m. drop m blank) size
      ∙ drop-zeros n (length before)
      ∙ ap (λ m. zeros (m - n)) (sym k) in
    let taken : slice packet 0 n ≡ some (take n packet) =
      slice_value packet 0 n (omega arith) fits ∙ ap (λ m. some (take m packet)) (omega arith) in
    rw taken (returns (k, inl (copy_fits blank head room ∙ ap (λ t. head ++ t) tail)))

-- A pipe that moves all in one call.
pub drains_at_once : (m k : ℕ) → k ≤ m → splice_loop (moved m ∷ []) k ≡ done
unfolding splice_loop
drains_at_once m zero h = refl
drains_at_once m (suc k) h = let e : suc k - m ≡ 0 = omega arith in ap (splice_loop []) e

-- Outcomes in which every call succeeds.
abbrev pub all_ok : ℤ → List Splice → ℕ → Outcomes
all_ok ttl splices page = record {
  raw_conn_ok = true;
  control_ok = true;
  default_ttl = some ttl;
  pipe_ok = true;
  mmap_ok = true;
  fake_ttl_ok = true;
  vmsplice_ok = true;
  splices = splices;
  reset_ok = true;
  raw_write_ok = true;
  rest_ok = true;
  page_size = page;
}

module _ (ttl fake_ttl sleep : ℤ) (splices : List Splice) (page n : ℕ) (packet : Bytes)
    (room : 0 < page) (drains : (k : ℕ) → k ≤ length packet → splice_loop splices k ≡ done) where
  send-Noisy :
      (fake before rest : Bytes)
      → length fake ≡ length before
      → before ++ rest ≡ packet
      → n ≤ length before
      → HidesName packet n fake
      → Noisy packet n fake_ttl ttl sleep (
          then_write (all_ok ttl splices page) rest (
            send_with_noise (all_ok ttl splices page) fake before fake_ttl ttl (least_sleep sleep)))
  unfolding send_with_noise await Noisy
  send-Noisy fake before rest same whole low hides =
      let blank = zeros (mmap_len page (length fake)) in
      let size : length blank ≡ mmap_len page (length fake) = length-zeros _ in
      let fits = mmap_len-fits page (length fake) room in
      let first = copy blank fake in
      let long : length first ≡ length blank = length-copy blank fake in
      let drained : splice_loop splices (length fake) ≡ done =
        drains (length fake) (omega (arith, length-append before rest, ap length whole)) in
      let kept : take (length fake) (copy first before) ≡ before =
        ap (λ k. take k (copy first before)) same ∙ take-copy first before (omega arith) in
      let awaited : await (all_ok ttl splices page) (length fake) ≡ done =
        rw (await, drained) refl in
      (
        fake,
        first,
        copy first before,
        rest,
        rw awaited refl,
        take-copy blank fake (omega arith),
        rw kept whole,
        omega arith,
        hides,
      )

  -- For a packet in which a name at position n (of len bytes) ends before the packet does: if every
  -- system call succeeds and the pipe drains, `desyncSend` reports success and makes exactly these
  -- calls: it sets the fake TTL, hands over a page that starts with the fake bytes, waits, puts the
  -- first part of the packet over them, sets the default TTL back and writes the rest. The page's
  -- last content and the rest are the packet. The fake bytes, at least n, are as many as that first
  -- part, and are either the packet up to the name with zeros behind, or the packet's own bytes.
  pub desync_send-Noisy :
      (len : ℕ)
      → n + len < length packet
      → Returns
          (Noisy packet n fake_ttl ttl sleep)
          (desync_send (all_ok ttl splices page) packet (pos n) len fake_ttl sleep)
  unfolding desync_send
  desync_send-Noisy len h = Returns-bind (find_last_dot-Returns packet n len h) λ at q.
      Returns-bind (cut_name packet 0 n len at (omega arith) (omega arith) q) λ lr cuts.
        let (whole, _, _, low) = cuts in
        let start : lr.0 ≡ take (length lr.0) packet =
          sym (take-append_length lr.0 lr.1) ∙ ap (take (length lr.0)) whole in
        Returns-bind (fake_data-HidesName packet lr.0 n at.1 (omega arith) (omega arith) start)
          λ fake hidden. returns (send-Noisy fake lr.0 lr.1 hidden.0 whole (omega arith) hidden.1)
