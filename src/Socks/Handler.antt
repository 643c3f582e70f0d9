-- ===== src/Socks/Handler.antt =====
-- `socks5Handler` of internal/socks5.go, from the bytes that the client sends to what it is
-- written and how the connection goes on. Writes to the client are taken to succeed, but for that
-- of the method, after which alone the code looks.
pub mod Answers
use bill_vpn.Common.{
  ℕ, zero, suc, ◌+◌, ◌*◌, Bool, true, false, not, ◌&&◌, ◌||◌, Option, none, some, List, [], ◌∷◌,
  ◌++◌, Bytes, if◌then◌else◌, ◌==◌, pos,
}
use bill_vpn.Policy.{is_true, is_block}
use bill_vpn.Route.{Env, has_byte}
use bill_vpn.Route.Plan.{
  RequestContext, DialPlan, source_socks5, resolve_domain_target, plan_request,
}
use bill_vpn.Socks.{
  Texts, AddrError, cut_short, invalid_type, Addr, bad, good, read_n, read_socks_addr, reply,
}

-- A connection is closed, kept while UDP packets are relayed, or handed to `handleTunnel` with the
-- plan and the bytes that are not read yet.
pub data Served : Type 0 where
  closed associated : Served
  tunnelled : DialPlan → Bytes → Served

pub record Session : Type 0 where
  pub writes : List Bytes
  pub served : Served

abbrev pub drops : Session
drops = record { writes = []; served = closed }

abbrev pub replies : ℕ → Session
replies code = record { writes = reply code ∷ []; served = closed }

abbrev pub wrote : Bytes → Session → Session
wrote b session = record session { writes = b ∷ session.writes }

-- How the other calls end: the write of the method, the dial, the opening of the UDP socket, and
-- the reply that then names its address.
pub record Network : Type 0 where
  pub method_sent : Bool
  pub dial_ok : Bool
  pub udp_reply : Option Bytes

-- The end, from `plan.Blocked` on; `atyp` is the type of the address.
pub serve_plan : Network → ℕ → Bytes → DialPlan → Session
serve_plan net atyp rest plan =
    if plan.blocked
    then replies (if (atyp == 3) && is_true plan.policy.reply_first then 0 else 2)
    else if is_block plan.policy.mode
    then replies 2
    else if is_true plan.policy.reply_first || net.dial_ok
    then record { writes = reply 0 ∷ []; served = tunnelled plan rest }
    else replies 1

abbrev pub planned : Network → ℕ → Bytes → Option DialPlan → Session
planned net atyp rest none = replies 1
planned net atyp rest (some plan) = serve_plan net atyp rest plan

abbrev pub socks_request : Bytes → ℕ → RequestContext
socks_request host port = record {
  source = source_socks5;
  host = host;
  port = pos port;
  domain_target_mode = resolve_domain_target;
}

-- A CONNECT, behind its address.
pub connect : Env → Network → ℕ → Bytes → Bytes → Session
unfolding serve_plan
connect env net atyp host (hi ∷ lo ∷ rest) =
    if (atyp == 1) || (atyp == 3) || (atyp == 4)
    then planned net atyp rest (plan_request env true (socks_request host (hi * 256 + lo)))
    else replies 8
connect env net atyp host _ = if (atyp == 1) || (atyp == 3) || (atyp == 4) then drops else replies 8

-- `handleUDPAssociate` up to its loop, behind the port of the request.
pub associate : Network → Bytes → Session
associate net (hi ∷ lo ∷ rest) = elim net.udp_reply [
  | none ↦ replies 1
  | some b ↦ record { writes = b ∷ []; served = associated }
]
associate net _ = drops

pub serve_addr : Env → Network → ℕ → ℕ → Addr → Session
unfolding connect associate
serve_addr env net cmd atyp (bad cut_short) = drops
serve_addr env net cmd atyp (bad invalid_type) = replies 8
serve_addr env net cmd atyp (good host rest) =
    if cmd == 3 then associate net rest else connect env net atyp host rest

-- The request, behind the methods.
pub serve_request : Texts → Env → Network → Bytes → Session
unfolding serve_addr
serve_request t env net (ver ∷ cmd ∷ rsv ∷ atyp ∷ rest) =
    if not (ver == 5)
    then drops
    else if not ((cmd == 1) || (cmd == 3))
    then replies 7
    else serve_addr env net cmd atyp (read_socks_addr t atyp rest)
serve_request t env net _ = drops

-- The choice of a method: 0, or 255 for none.
pub serve_methods : Texts → Env → Network → Bytes → Bytes → Session
unfolding serve_request
serve_methods t env net methods rest =
    let found = has_byte 0 methods in
    if not net.method_sent
    then drops
    else if found
    then wrote (5 ∷ 0 ∷ []) (serve_request t env net rest)
    else wrote (5 ∷ 255 ∷ []) drops

pub socks5_handler : Texts → Env → Network → Bytes → Session
unfolding serve_methods
socks5_handler t env net (ver ∷ count ∷ s) =
    if not (ver == 5) then drops else elim (read_n count s) [
      | none ↦ drops
      | some (methods, rest) ↦ serve_methods t env net methods rest
    ]
socks5_handler t env net _ = drops
