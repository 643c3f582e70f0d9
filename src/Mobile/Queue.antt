-- ===== src/Mobile/Queue.antt =====
-- The packet connection of mobile/queued_packet_conn.go. A `select` takes any case that is ready:
-- the case it takes is an argument, and a case that is not ready blocks the call, which is `none`.
-- Time is a number, and no deadline is the zero `time.Time`.
pub mod Fifo
pub mod Progress
use bill_vpn.Common.{
  ◌≡◌, ℕ, Bool, true, false, Option, none, some, List, [], ◌∷◌, ◌++◌, Bytes, length, take, ltb, leb,
  if◌then◌else◌,
}

-- `queuedPacket`
pub record Packet : Type 0 where
  pub payload : Bytes
  pub addr : Bytes

pub record PacketConn : Type 0 where
  pub packets : List Packet
  pub closed : Bool
  pub read_deadline : Option ℕ

-- The case of a `select`.
pub data Case : Type 0 where
  on_packets on_deadline on_closed : Case

-- How a call ends.
pub data Outcome : Type 0 where
  accepted : Packet → Outcome
  delivered : ℕ → Packet → Outcome
  err_closed timed_out stopped changed : Outcome

-- The capacity of the channel.
abbrev pub capacity : ℕ
capacity = 32

abbrev pub new_packet_conn : PacketConn
new_packet_conn = record { packets = []; closed = false; read_deadline = none }

-- `EnqueuePacket`
unfoldable pub enqueue_packet : Case → Bytes → Bytes → PacketConn → Option (PacketConn × Outcome)
enqueue_packet on_packets payload addr pc =
    let packet : Packet = record { payload = payload; addr = addr } in
    if ltb (length pc.packets) capacity
    then some (record pc { packets = pc.packets ++ (packet ∷ []) }, accepted packet)
    else none
enqueue_packet on_closed payload addr pc = if pc.closed then some (pc, err_closed) else none
enqueue_packet on_deadline payload addr pc = none

-- One round of `pumpBaseReads`: the inner connection has read a packet, or failed.
unfoldable pub pump_base_read : Case → Option Packet → PacketConn → Option (PacketConn × Outcome)
unfolding enqueue_packet
pump_base_read on none pc = some (pc, stopped)
pump_base_read on_packets (some packet) pc = enqueue_packet on_packets packet.payload packet.addr pc
pump_base_read on_closed (some packet) pc = if pc.closed then some (pc, stopped) else none
pump_base_read on_deadline (some packet) pc = none

-- The packet as a reader with room for `n` bytes gets it.
abbrev pub cut : ℕ → Packet → Packet
cut n packet = record packet { payload = take n packet.payload }

-- The `select` of `ReadFrom`; `late` says that the timer has fired.
unfoldable pub read_case : Case → Bool → ℕ → PacketConn → Option (PacketConn × Outcome)
read_case on_packets late n pc = elim pc.packets [
  | [] ↦ none
  | packet ∷ rest ↦ some (record pc { packets = rest }, delivered n (cut n packet))
]
read_case on_deadline late n pc = if late then some (pc, timed_out) else none
read_case on_closed late n pc = if pc.closed then some (pc, err_closed) else none

-- `ReadFrom` into a buffer of `n` bytes, called at the time `now` and ending at the time `later`.
unfoldable pub read_from : ℕ → ℕ → Case → ℕ → PacketConn → Option (PacketConn × Outcome)
unfolding read_case
read_from now later on n pc = elim pc.read_deadline [
  | none ↦ read_case on false n pc
  | some t ↦ if leb t now then some (pc, timed_out) else read_case on (leb t later) n pc
]

-- `SetReadDeadline`
abbrev pub set_read_deadline : Option ℕ → PacketConn → PacketConn
set_read_deadline t pc = record pc { read_deadline = t }

-- `Close`
abbrev pub close : PacketConn → PacketConn
close pc = record pc { closed = true }

-- A run of the connection: any sequence of calls and of rounds of the pump, with how they end.
pub data Run (start : PacketConn) : List Outcome → PacketConn → Type 0 where
  opened : Run start [] start
  enqueued :
      {os : List Outcome} {pc pc' : PacketConn} {o : Outcome} (on : Case) (payload addr : Bytes)
      → Run start os pc
      → enqueue_packet on payload addr pc ≡ some (pc', o)
      → Run start (os ++ (o ∷ [])) pc'
  pumped :
      {os : List Outcome} {pc pc' : PacketConn} {o : Outcome} (on : Case) (read : Option Packet)
      → Run start os pc
      → pump_base_read on read pc ≡ some (pc', o)
      → Run start (os ++ (o ∷ [])) pc'
  reads :
      {os : List Outcome} {pc pc' : PacketConn} {o : Outcome} (now later : ℕ) (on : Case) (n : ℕ)
      → Run start os pc
      → read_from now later on n pc ≡ some (pc', o)
      → Run start (os ++ (o ∷ [])) pc'
  sets_deadline :
      {os : List Outcome} {pc : PacketConn} (t : Option ℕ)
      → Run start os pc
      → Run start (os ++ (changed ∷ [])) (set_read_deadline t pc)
  closes :
      {os : List Outcome} {pc : PacketConn}
      → Run start os pc
      → Run start (os ++ (changed ∷ [])) (close pc)
