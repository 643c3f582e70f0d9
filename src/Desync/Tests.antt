-- ===== src/Desync/Tests.antt =====
-- The fake packets of internal/desync_linux.go and internal/desync_windows.go for a small message.
use bill_vpn.Common.{[], ◌∷◌, Bytes, List, Bool, true, false, pos, arith, Returns}
use bill_vpn.Desync.Windows
use bill_vpn.Desync.Windows.{Call, transmit}
use bill_vpn.Desync.{moved, desync_send}
use bill_vpn.Desync.Sends.{all_ok, drains_at_once, Noisy, desync_send-Noisy}

-- A record header, and a name `a.b` at 7 with a byte behind it.
abbrev hello : Bytes
hello = 22 ∷ 3 ∷ 1 ∷ 0 ∷ 6 ∷ 9 ∷ 8 ∷ b'a' ∷ b'.' ∷ b'b' ∷ 7 ∷ []

desync_send-Noisy_example :
    Returns
      (Noisy hello 7 (pos 3) (pos 64) (pos 5))
      (desync_send (all_ok (pos 64) (moved 11 ∷ []) 16) hello (pos 7) 3 (pos 3) (pos 5))
desync_send-Noisy_example =
    desync_send-Noisy (pos 64) (pos 3) (pos 5) (moved 11 ∷ []) 16 7 hello (omega arith)
      (drains_at_once 11) 3 (omega arith)

-- Every call succeeds but for `TransmitFile`.
abbrev transmit_fails : List Call → Call → Bool
transmit_fails before (transmit n) = false
transmit_fails before _ = true
