-- ===== src/Mobile/Tests.antt =====
-- The theorems on mobile/ for small packets, messages and logs.
use bill_vpn.Common.{
  none, ℕ, suc, ◌≡◌, ◌≤◌, ◌<◌, refl, inr, Bool, true, Option, some, List, [], ◌∷◌, ◌++◌, Bytes,
  Bytes-discrete, ℕ_discrete, codes, length, get_elem?, arith,
}
use bill_vpn.Route.Tests.{env}
use bill_vpn.Mobile.Queue.{
  Packet, PacketConn, on_packets, Outcome, accepted, delivered, timed_out, changed, new_packet_conn,
  enqueue_packet, read_case, read_from, Run, opened, enqueued, reads, sets_deadline, cut,
}
use bill_vpn.Mobile.Queue.Fifo.{Ordered, run-Ordered}
use bill_vpn.Mobile.Queue.Progress.{Reading, Ready, open_conn}
use bill_vpn.Mobile.Frames.{serve_local_dns_tcp, stream_of, Answers, serve_local_dns_tcp-Answers}
use bill_vpn.Mobile.Bridge.{Network, answered, dial_context, write_to, is_vpn_dns_address}
use bill_vpn.Mobile.Bridge.Safe.{Dials, dial_context-Dials}
use bill_vpn.Mobile.Bridge.Answers.{answer_packet, query_is_answered}
use bill_vpn.Mobile.Api.{App}

abbrev packet : Packet
packet = record { payload = 1 ∷ 2 ∷ []; addr = codes "a" }

abbrev outcomes : List Outcome
outcomes = accepted packet ∷ delivered 1 (cut 1 packet) ∷ changed ∷ timed_out ∷ []

abbrev ended : PacketConn
ended = record new_packet_conn { read_deadline = some 5 }

-- A packet comes in and is read into a buffer of one byte; a later read is past its deadline.
small_run : Run new_packet_conn outcomes ended
unfolding enqueue_packet read_from read_case
small_run =
    reads 7 7 on_packets 9
      (sets_deadline (some 5)
        (reads 0 0 on_packets 1 (enqueued on_packets (1 ∷ 2 ∷ []) (codes "a") opened refl) refl))
      refl

run-Ordered_example : Ordered outcomes ended
run-Ordered_example = run-Ordered outcomes ended small_run

-- The answer to a message, if it is at least two bytes, is two bytes; the state counts the messages.
abbrev count_and_answer : ℕ → Bytes → ℕ × Option Bytes
count_and_answer n [] = (suc n, none)
count_and_answer n (x ∷ []) = (suc n, none)
count_and_answer n (x ∷ y ∷ m) = (suc n, some (7 ∷ x ∷ []))

abbrev takes_all : Bytes → Bool
takes_all f = true

answers_are_short : (n : ℕ) (m a : Bytes) → (count_and_answer n m).1 ≡ some a → length a < 65536
answers_are_short n [] a e = absurd (ground (arith, e))
answers_are_short n (x ∷ []) a e = absurd (ground (arith, e))
answers_are_short n (x ∷ y ∷ m) a e =
    let two : 7 ∷ x ∷ [] ≡ a = ground (arith, e) in rw (← two) (omega arith)

serve_local_dns_tcp-Answers_example :
    Answers count_and_answer takes_all 0 ((1 ∷ 2 ∷ []) ∷ (3 ∷ []) ∷ []) (
      serve_local_dns_tcp count_and_answer takes_all 0
        (stream_of ((1 ∷ 2 ∷ []) ∷ (3 ∷ []) ∷ []) ++ (0 ∷ 9 ∷ 4 ∷ [])))
serve_local_dns_tcp-Answers_example =
    serve_local_dns_tcp-Answers count_and_answer takes_all 0 ((1 ∷ 2 ∷ []) ∷ (3 ∷ []) ∷ [])
      (0 ∷ 9 ∷ 4 ∷ []) answers_are_short
      ((omega arith, omega arith), ((omega arith, omega arith), tt)) (inr (omega arith))

abbrev net : Network
net = record {
  join_host_port = λ host port. host ++ codes ":p";
  connects = λ addr. true;
  resolve_udp_addr = λ addr. some addr;
}

dial_context-Dials_example :
    Dials env net (codes "9") 443 (dial_context env net (some (codes "9")) 443)
dial_context-Dials_example = dial_context-Dials env net (codes "9") 443 refl

query_is_answered_example :
    (pc : PacketConn) × (write_to env net
        (λ q. some (8 ∷ q))
        on_packets
        (5 ∷ [])
        (some (codes "172.19.0.2"))
        53
        (open_conn (packet ∷ []))
      ≡ some (pc, answered 1))
    × ((os : List Outcome) (pc' : PacketConn)
        → Reading pc os pc'
        → (length os ≤ 1 → Ready pc')
          × (1 < length os
              → (n : ℕ) × (get_elem? os 1
                  ≡ some (
                      delivered n
                        (cut n (answer_packet net (codes "172.19.0.2") 53 (8 ∷ 5 ∷ [])))))))
unfolding is_vpn_dns_address Bytes-discrete ℕ_discrete
query_is_answered_example =
    query_is_answered env net (λ q. some (8 ∷ q)) (5 ∷ []) (codes "172.19.0.2") (8 ∷ 5 ∷ []) 53
      (packet ∷ []) refl refl (omega arith)

abbrev app : App
app = record {
  working_dir = codes "d";
  is_running = true;
  log_entries = [];
  custom_proxy = true;
  log_writer = true;
}
