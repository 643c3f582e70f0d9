-- ===== src/Tunnel/Events.antt =====
-- What a tunnel does to its two connections, in order, and what the destination gets of it.
use bill_vpn.Common.{ℕ, ℤ, List, [], ◌∷◌, ◌++◌, Bytes, take, Option}
use bill_vpn.Fragment.{Op, write, send_with_oob, sleep}
use bill_vpn.Desync.{Syscall, set_ttl, gift, sleep_for, overwrite, write_rest}

-- An answer to an HTTP request: its status, and the text of `Location`.
pub record Response : Type 0 where
  pub status : ℤ
  pub location : Option Bytes

-- A dial, a write to the client, an operation on the destination, a copy of what is left.
pub data Event : Type 0 where
  dialled : Bytes → Event
  alerted : Bytes → Event
  answered : Response → Event
  wrote : Op → Event
  called : Syscall → Event
  copied : Bytes → Event

-- `failed` is a tunnel that closes both connections, `hangs` one that waits for ever.
pub data End : Type 0 where
  goes_on failed hangs : End

pub record Run : Type 0 where
  pub events : List Event
  pub end : End

abbrev pub fails : Run
fails = record { events = []; end = failed }

abbrev pub before : List Event → Run → Run
before es r = record r { events = es ++ r.events }

-- The bytes that the destination gets in band. Of a page that was handed over it gets the last
-- content: the first one is sent with a TTL that is too low.
unfoldable pub upstream_from : ℕ → List Event → Bytes
upstream_from n [] = []
upstream_from n (dialled a ∷ es) = upstream_from n es
upstream_from n (alerted b ∷ es) = upstream_from n es
upstream_from n (answered r ∷ es) = upstream_from n es
upstream_from n (copied b ∷ es) = b ++ upstream_from n es
upstream_from n (wrote (write b) ∷ es) = b ++ upstream_from n es
upstream_from n (wrote (send_with_oob b c) ∷ es) = b ++ upstream_from n es
upstream_from n (wrote sleep ∷ es) = upstream_from n es
upstream_from n (called (set_ttl t) ∷ es) = upstream_from n es
upstream_from n (called (gift page k) ∷ es) = upstream_from k es
upstream_from n (called (sleep_for t) ∷ es) = upstream_from n es
upstream_from n (called (overwrite page) ∷ es) = take n page ++ upstream_from n es
upstream_from n (called (write_rest b) ∷ es) = b ++ upstream_from n es

unfoldable pub upstream : List Event → Bytes
unfolding upstream_from
upstream es = upstream_from 0 es
