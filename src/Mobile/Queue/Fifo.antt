-- ===== src/Mobile/Queue/Fifo.antt =====
-- Order and progress of the packet queue of mobile/queued_packet_conn.go.
use bill_vpn.Common.{
  ℕ, suc, ◌≤◌, ◌<◌, ◌≡◌, refl, ap, Bool, true, false, Option, none, some, List, [], ◌∷◌, ◌++◌,
  Bytes, length, length-append, ltb, leb, if◌then◌else◌, append_assoc, append-nil, arith,
}
use bill_vpn.Mobile.Queue.{
  Packet, PacketConn, Case, on_packets, on_deadline, on_closed, Outcome, accepted, delivered,
  err_closed, timed_out, stopped, changed, capacity, new_packet_conn, enqueue_packet,
  pump_base_read, cut, read_case, read_from, Run, opened, enqueued, pumped, reads, sets_deadline,
  closes,
}

-- The packets that the queue has taken in, in order.
unfoldable pub taken_in : List Outcome → List Packet
taken_in [] = []
taken_in (accepted p ∷ os) = p ∷ taken_in os
taken_in (delivered _ _ ∷ os) = taken_in os
taken_in (err_closed ∷ os) = taken_in os
taken_in (timed_out ∷ os) = taken_in os
taken_in (stopped ∷ os) = taken_in os
taken_in (changed ∷ os) = taken_in os

-- What the readers got, in order, with the sizes of their buffers.
unfoldable pub handed_out : List Outcome → List (ℕ × Packet)
handed_out [] = []
handed_out (accepted _ ∷ os) = handed_out os
handed_out (delivered n p ∷ os) = (n, p) ∷ handed_out os
handed_out (err_closed ∷ os) = handed_out os
handed_out (timed_out ∷ os) = handed_out os
handed_out (stopped ∷ os) = handed_out os
handed_out (changed ∷ os) = handed_out os

-- Each reader got the packet at its place, cut to its buffer.
abbrev pub Cuts : List (ℕ × Packet) → List Packet → Type 0
Cuts [] [] = Unit
Cuts ((n, q) ∷ gs) (p ∷ ps) = (q ≡ cut n p) × Cuts gs ps
Cuts [] (p ∷ ps) = ⊥
Cuts (g ∷ gs) [] = ⊥

Cuts-snoc :
    (gs : List (ℕ × Packet)) (ps : List Packet) (n : ℕ) (p : Packet)
    → Cuts gs ps
    → Cuts (gs ++ ((n, cut n p) ∷ [])) (ps ++ (p ∷ []))
Cuts-snoc [] [] n p h = (refl, tt)
Cuts-snoc (g ∷ gs) (q ∷ ps) n p (e, h) = (e, Cuts-snoc gs ps n p h)
Cuts-snoc [] (q ∷ ps) n p h = elim h [ ]
Cuts-snoc (g ∷ gs) [] n p h = elim h [ ]

taken_in-append : (xs ys : List Outcome) → taken_in (xs ++ ys) ≡ taken_in xs ++ taken_in ys
unfolding taken_in
taken_in-append [] ys = refl
taken_in-append (accepted p ∷ xs) ys = ap (◌∷◌ p) (taken_in-append xs ys)
taken_in-append (delivered _ _ ∷ xs) ys = taken_in-append xs ys
taken_in-append (err_closed ∷ xs) ys = taken_in-append xs ys
taken_in-append (timed_out ∷ xs) ys = taken_in-append xs ys
taken_in-append (stopped ∷ xs) ys = taken_in-append xs ys
taken_in-append (changed ∷ xs) ys = taken_in-append xs ys

handed_out-append : (xs ys : List Outcome) → handed_out (xs ++ ys) ≡ handed_out xs ++ handed_out ys
unfolding handed_out
handed_out-append [] ys = refl
handed_out-append (accepted _ ∷ xs) ys = handed_out-append xs ys
handed_out-append (delivered n p ∷ xs) ys = ap (◌∷◌ (n, p)) (handed_out-append xs ys)
handed_out-append (err_closed ∷ xs) ys = handed_out-append xs ys
handed_out-append (timed_out ∷ xs) ys = handed_out-append xs ys
handed_out-append (stopped ∷ xs) ys = handed_out-append xs ys
handed_out-append (changed ∷ xs) ys = handed_out-append xs ys

-- How one call moves the packets.
data Moved (before after : List Packet) : Outcome → Type 0 where
  grown :
      (p : Packet)
      → after ≡ before ++ (p ∷ [])
      → length before < capacity
      → Moved before after (accepted p)
  shrunk : (n : ℕ) (p : Packet) → before ≡ p ∷ after → Moved before after (delivered n (cut n p))
  same :
      {o : Outcome}
      → after ≡ before
      → taken_in (o ∷ []) ≡ []
      → handed_out (o ∷ []) ≡ []
      → Moved before after o

-- What has been read and what waits, in this order, is what was taken in; the queue is never
-- longer than the channel.
pub record Ordered (os : List Outcome) (pc : PacketConn) : Type 0 where
  pub handed : List Packet
  pub matching : Cuts (handed_out os) handed
  pub in_order : taken_in os ≡ handed ++ pc.packets
  pub bounded : length pc.packets ≤ capacity

Ordered-Moved :
    (os : List Outcome) (pc pc' : PacketConn) (o : Outcome)
    → Moved pc.packets pc'.packets o
    → Ordered os pc
    → Ordered (os ++ (o ∷ [])) pc'
unfolding taken_in handed_out
Ordered-Moved os pc pc' o (grown p e room) h = record {
  handed = h.handed;
  matching = rw (handed_out-append os (accepted p ∷ []), append-nil (handed_out os)) h.matching;
  in_order =
      rw
        (
          taken_in-append os (accepted p ∷ []),
          h.in_order,
          e,
          append_assoc h.handed pc.packets (p ∷ []),
        )
        refl;
  bounded = rw e (omega (arith, length-append pc.packets (p ∷ []), room));
}
Ordered-Moved os pc pc' o (shrunk n p e) h =
    let long : length pc.packets ≡ suc (length pc'.packets) = ap length e in
    let small = h.bounded in
    record {
      handed = h.handed ++ (p ∷ []);
      matching =
          rw (handed_out-append os (delivered n (cut n p) ∷ []))
            (Cuts-snoc (handed_out os) h.handed n p h.matching);
      in_order =
          rw
            (
              taken_in-append os (delivered n (cut n p) ∷ []),
              append-nil (taken_in os),
              h.in_order,
              e,
              append_assoc h.handed (p ∷ []) pc'.packets,
            )
            refl;
      bounded = omega arith;
    }
Ordered-Moved os pc pc' o (same e t g) h = record {
  handed = h.handed;
  matching = rw (handed_out-append os (o ∷ []), g, append-nil (handed_out os)) h.matching;
  in_order = rw (taken_in-append os (o ∷ []), t, append-nil (taken_in os), h.in_order, e) refl;
  bounded = rw e h.bounded;
}

-- What a call that does not block has done.
data Effect (before : List Packet) : Option (PacketConn × Outcome) → Type 0 where
  waiting : Effect before none
  done :
      {pc' : PacketConn} {o : Outcome} → Moved before pc'.packets o → Effect before (some (pc', o))

Effect-if :
    {before : List Packet} (b : Bool) {x y : Option (PacketConn × Outcome)}
    → (b ≡ true → Effect before x)
    → (b ≡ false → Effect before y)
    → Effect before (if b then x else y)
Effect-if true h k = h refl
Effect-if false h k = k refl

enqueue_packet-Effect :
    (on : Case) (payload addr : Bytes) (pc : PacketConn)
    → Effect pc.packets (enqueue_packet on payload addr pc)
unfolding enqueue_packet taken_in handed_out
enqueue_packet-Effect on_packets payload addr pc =
    Effect-if (ltb (length pc.packets) capacity) (λ h. done (grown _ refl (ground (arith, h))))
      (λ h. waiting)
enqueue_packet-Effect on_closed payload addr pc =
    Effect-if pc.closed (λ h. done (same refl refl refl)) (λ h. waiting)
enqueue_packet-Effect on_deadline payload addr pc = waiting

pump_base_read-Effect :
    (on : Case) (read : Option Packet) (pc : PacketConn)
    → Effect pc.packets (pump_base_read on read pc)
unfolding pump_base_read taken_in handed_out
pump_base_read-Effect on none pc = done (same refl refl refl)
pump_base_read-Effect on_packets (some p) pc = enqueue_packet-Effect on_packets p.payload p.addr pc
pump_base_read-Effect on_closed (some p) pc =
    Effect-if pc.closed (λ h. done (same refl refl refl)) (λ h. waiting)
pump_base_read-Effect on_deadline (some p) pc = waiting

read_case-Effect :
    (on : Case) (late : Bool) (n : ℕ) (pc : PacketConn) → Effect pc.packets (read_case on late n pc)
unfolding read_case taken_in handed_out
read_case-Effect on_packets late n pc =
    elim pc.packets
      as (λ ps. Effect ps (read_case on_packets late n (record pc { packets = ps }))) [
        | [] ↦ waiting
        | p ∷ rest ↦ done (shrunk n p refl)
      ]
read_case-Effect on_deadline late n pc =
    Effect-if late (λ h. done (same refl refl refl)) (λ h. waiting)
read_case-Effect on_closed late n pc =
    Effect-if pc.closed (λ h. done (same refl refl refl)) (λ h. waiting)

read_from-Effect :
    (now later : ℕ) (on : Case) (n : ℕ) (pc : PacketConn)
    → Effect pc.packets (read_from now later on n pc)
unfolding read_from taken_in handed_out
read_from-Effect now later on n pc =
    elim pc.read_deadline
      as (λ t. Effect pc.packets (elim t as (λ _. Option (PacketConn × Outcome)) [
        | none ↦ read_case on false n pc
        | some t ↦ if leb t now then some (pc, timed_out) else read_case on (leb t later) n pc
      ])) [
        | none ↦ read_case-Effect on false n pc
        | some t ↦
            Effect-if (leb t now) (λ h. done (same refl refl refl))
              (λ h. read_case-Effect on (leb t later) n pc)
      ]

Effect-Moved :
    (before : List Packet) (pc : PacketConn) (o : Outcome)
    → Effect before (some (pc, o))
    → Moved before pc.packets o
Effect-Moved before pc o (done m) = m

move :
    (os : List Outcome) (pc pc' : PacketConn) (o : Outcome) (r : Option (PacketConn × Outcome))
    → Effect pc.packets r
    → r ≡ some (pc', o)
    → Ordered os pc
    → Ordered (os ++ (o ∷ [])) pc'
move os pc pc' o r h e ordered =
    Ordered-Moved os pc pc' o (Effect-Moved pc.packets pc' o (rw e at h)) ordered

-- In every run from a new connection, whatever the selects choose and whenever deadlines are set
-- or the connection is closed: the packets that were read, each cut to its reader's buffer, and
-- then those that wait are the packets that were taken in, in order; none is lost, repeated or
-- overtaken, and at most 32 wait.
pub run-Ordered : (os : List Outcome) (pc : PacketConn) → Run new_packet_conn os pc → Ordered os pc
unfolding taken_in handed_out
run-Ordered os pc opened = record {
  handed = [];
  matching = tt;
  in_order = refl;
  bounded = omega arith;
}
run-Ordered os pc (enqueued on payload addr r e) =
    move _ _ _ _ _ (enqueue_packet-Effect on payload addr _) e (run-Ordered _ _ r)
run-Ordered os pc (pumped on read r e) =
    move _ _ _ _ _ (pump_base_read-Effect on read _) e (run-Ordered _ _ r)
run-Ordered os pc (reads now later on n r e) =
    move _ _ _ _ _ (read_from-Effect now later on n _) e (run-Ordered _ _ r)
run-Ordered os pc (sets_deadline t r) =
    Ordered-Moved _ _ _ _ (same refl refl refl) (run-Ordered _ _ r)
run-Ordered os pc (closes r) = Ordered-Moved _ _ _ _ (same refl refl refl) (run-Ordered _ _ r)
