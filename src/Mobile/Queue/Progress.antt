-- ===== src/Mobile/Queue/Progress.antt =====
-- What waits in the packet queue of mobile/queued_packet_conn.go is read.
use bill_vpn.Common.{
  ℕ, zero, suc, ◌≤◌, ◌<◌, ◌≡◌, refl, ap, ◌∙◌, false, Option, none, some, List, [], ◌∷◌, ◌++◌,
  length, get_elem?, append_assoc, append-nil, arith,
}
use bill_vpn.Mobile.Queue.{
  Packet, PacketConn, Case, on_packets, on_deadline, on_closed, Outcome, delivered, cut, read_case,
  read_from,
}

-- A reader that calls `ReadFrom` again and again.
pub data Reading (start : PacketConn) : List Outcome → PacketConn → Type 0 where
  begun : Reading start [] start
  goes_on :
      {os : List Outcome} {pc pc' : PacketConn} {o : Outcome} (now later : ℕ) (on : Case) (n : ℕ)
      → Reading start os pc
      → read_from now later on n pc ≡ some (pc', o)
      → Reading start (os ++ (o ∷ [])) pc'

-- Each outcome is the packet at its place.
data Answers : List Outcome → List Packet → Type 0 where
  nothing : Answers [] []
  next :
      {os : List Outcome} {ps : List Packet} (n : ℕ) (p : Packet)
      → Answers os ps
      → Answers (delivered n (cut n p) ∷ os) (p ∷ ps)

Answers-snoc :
    {os : List Outcome} {ps : List Packet} (n : ℕ) (p : Packet)
    → Answers os ps
    → Answers (os ++ (delivered n (cut n p) ∷ [])) (ps ++ (p ∷ []))
Answers-snoc n p nothing = next n p nothing
Answers-snoc n p (next m q h) = next m q (Answers-snoc n p h)

length-Answers : {os : List Outcome} {ps : List Packet} → Answers os ps → length os ≡ length ps
length-Answers nothing = refl
length-Answers (next m q h) = ap suc (length-Answers h)

abbrev or_packet : Packet → Option Packet → Packet
or_packet p none = p
or_packet p (some q) = q

Answers-get :
    {os : List Outcome} {ps : List Packet} (rest : List Packet) (i : ℕ) (p : Packet)
    → Answers os ps
    → get_elem? (ps ++ rest) i ≡ some p
    → i < length os
    → (n : ℕ) × (get_elem? os i ≡ some (delivered n (cut n p)))
Answers-get rest i p nothing e long = absurd (omega arith)
Answers-get rest zero p (next m q h) e long =
    (m, ap (λ r. some (delivered m (cut m r))) (ap (or_packet p) e))
Answers-get rest (suc i) p (next m q h) e long = Answers-get rest i p h e (omega arith)

-- An open connection without a deadline.
abbrev pub open_conn : List Packet → PacketConn
open_conn ps = record { packets = ps; closed = false; read_deadline = none }

-- What a read of such a connection gives.
data Next : List Packet → Option (PacketConn × Outcome) → Type 0 where
  waits : {ps : List Packet} → Next ps none
  gives :
      {rest : List Packet} (n : ℕ) (p : Packet)
      → Next (p ∷ rest) (some (open_conn rest, delivered n (cut n p)))

read_from-Next :
    (ps : List Packet) (now later : ℕ) (on : Case) (n : ℕ)
    → Next ps (read_from now later on n (open_conn ps))
unfolding read_from read_case
read_from-Next [] now later on_packets n = waits
read_from-Next (p ∷ ps) now later on_packets n = gives n p
read_from-Next ps now later on_deadline n = waits
read_from-Next ps now later on_closed n = waits

-- How far a reader has come.
data Drained (ps : List Packet) : List Outcome → PacketConn → Type 0 where
  drained :
      {os : List Outcome} (handed rest : List Packet)
      → Answers os handed
      → ps ≡ handed ++ rest
      → Drained ps os (open_conn rest)

drain_once :
    (ps handed rest : List Packet) (os : List Outcome) (pc : PacketConn) (o : Outcome)
    → Answers os handed
    → ps ≡ handed ++ rest
    → Next rest (some (pc, o))
    → Drained ps (os ++ (o ∷ [])) pc
drain_once ps handed rest os pc o h e (gives {rest = more} n p) =
    drained (handed ++ (p ∷ [])) more (Answers-snoc n p h)
      (rw (append_assoc handed (p ∷ []) more) e)

drain_read :
    (ps : List Packet) (os : List Outcome) (pc pc' : PacketConn) (o : Outcome) (now later : ℕ)
    (on : Case) (n : ℕ)
    → Drained ps os pc
    → read_from now later on n pc ≡ some (pc', o)
    → Drained ps (os ++ (o ∷ [])) pc'
drain_read ps os pc pc' o now later on n (drained handed rest h e) r =
    drain_once ps handed rest os pc' o h e (rw r at (read_from-Next rest now later on n))

Reading-Drained :
    (ps : List Packet) (os : List Outcome) (pc : PacketConn)
    → Reading (open_conn ps) os pc
    → Drained ps os pc
Reading-Drained ps os pc begun = drained [] ps nothing refl
Reading-Drained ps os pc (goes_on now later on n r e) =
    drain_read ps _ _ pc _ now later on n (Reading-Drained ps _ _ r) e

-- `Ready pc`: a read whose `select` takes the packets returns at once.
abbrev pub Ready : PacketConn → Type 0
Ready pc =
    (now later n : ℕ)
    → (pc' : PacketConn) × (o : Outcome) × (read_from now later on_packets n pc ≡ some (pc', o))

get_elem?-inside : (ps : List Packet) (i : ℕ) (p : Packet) → get_elem? ps i ≡ some p → i < length ps
get_elem?-inside [] i p h = absurd (ground (arith, h))
get_elem?-inside (q ∷ ps) zero p h = omega arith
get_elem?-inside (q ∷ ps) (suc i) p h = omega (arith, get_elem?-inside ps i p h)

Ready-Drained :
    (ps : List Packet) (i : ℕ) (p : Packet) (os : List Outcome) (pc : PacketConn)
    → get_elem? ps i ≡ some p
    → length os ≤ i
    → Drained ps os pc
    → Ready pc
unfolding read_from read_case
Ready-Drained ps i p os pc at short (drained handed [] h e) now later n =
    let same : length ps ≡ length handed = ap length e ∙ ap length (append-nil handed) in
    absurd (omega (arith, get_elem?-inside ps i p at, length-Answers h))
Ready-Drained ps i p os pc at short (drained handed (q ∷ rest) h e) now later n = (_, _, refl)

Drained-get :
    (ps : List Packet) (i : ℕ) (p : Packet) (os : List Outcome) (pc : PacketConn)
    → get_elem? ps i ≡ some p
    → i < length os
    → Drained ps os pc
    → (n : ℕ) × (get_elem? os i ≡ some (delivered n (cut n p)))
Drained-get ps i p os pc at long (drained handed rest h e) =
    Answers-get rest i p h (rw e at at) long

-- On an open connection without a deadline, the packet that waits behind `i` others is read: no
-- read before it blocks for good, and once more than `i` reads have returned, however their
-- selects chose, the read number `i` (from 0) has returned that packet, cut to its buffer.
pub packet_is_read :
    (ps : List Packet) (i : ℕ) (p : Packet) (os : List Outcome) (pc : PacketConn)
    → get_elem? ps i ≡ some p
    → Reading (open_conn ps) os pc
    → (length os ≤ i → Ready pc)
      × (i < length os → (n : ℕ) × (get_elem? os i ≡ some (delivered n (cut n p))))
packet_is_read ps i p os pc at r =
    let d = Reading-Drained ps os pc r in
    (λ short. Ready-Drained ps i p os pc at short d, λ long. Drained-get ps i p os pc at long d)
