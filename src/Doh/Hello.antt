-- ===== src/Doh/Hello.antt =====
-- What the DoH server gets of the ClientHello (internal/config.go).
use bill_vpn.Common.{
  ℕ, ◌≤◌, ◌<◌, ◌≡◌, refl, ◌⊎◌, Bool, true, false, ◌||◌, Option, none, some, List, [], ◌∷◌, Bytes,
  length, ℤ, pos, negsuc,
}
use bill_vpn.Fragment.{Op}
use bill_vpn.Fragment.Deliver.{Delivers}
use bill_vpn.Policy.{Policy, is_block, is_true}
use bill_vpn.PolicyConn.{Event, wrote, fragmented, desynced, is_tls_alert}
use bill_vpn.Doh.{made, broke, InterceptConn, World, act, write, new_conn}

-- One event that brings the message to the server: written as it is, handed to `desyncSend`, or
-- as records of which a reader gets its handshake message.
pub data Brings (b : Bytes) : Event → Type 0 where
  as_written : Brings b (wrote b)
  as_desynced :
      (v6 : Bool) (n : ℤ) (len : ℕ) (ttl sleep : ℤ) → Brings b (desynced v6 b n len ttl sleep)
  as_records : (ops : List Op) → Delivers b ops → Brings b (fragmented ops)

-- An error, and no call made; an error, and one call that failed and would have brought the
-- message; or the length of the message, and one call that has brought it.
pub data Handled (b : Bytes) : InterceptConn × Option ℕ → Type 0 where
  refused : Handled b (record { handled = true; events = [] }, none)
  broken :
      (e : Event) → Brings b e → Handled b (record { handled = true; events = broke e ∷ [] }, none)
  brought :
      (e : Event)
      → Brings b e
      → Handled b (record { handled = true; events = made e ∷ [] }, some (length b))

abbrev after_first : InterceptConn
after_first = record { handled = true; events = [] }

-- Two records or more, in a positive number of segments or one by one with `oob`, without `oobex`.
pub record Splits (p : Policy) : Type 0 where
  pub records : ℕ
  pub many : 2 ≤ records
  pub is_records : p.num_records ≡ pos records
  pub segments :
      ((s : ℕ) × (p.num_segments ≡ pos s) × (0 < s))
      ⊎ ((p.num_segments ≡ negsuc 0) × (is_true p.oob ≡ true))
  pub without_oob_ex : is_true p.oob_ex ≡ false

-- With the modes `block` and `tls-alert` only the first write is refused: a second one goes to the
-- inner connection as it is.
pub second_write_passes :
    (w : World) (b b2 : Bytes)
    → (is_block w.policy.mode || is_tls_alert w.policy.mode) ≡ true
    → w.accepts [] (wrote b2) ≡ true
    → (c : InterceptConn) × (write w b new_conn ≡ some (c, none))
      × (write w b2 c
          ≡ some (record { handled = true; events = made (wrote b2) ∷ [] }, some (length b2)))
unfolding write act
second_write_passes w b b2 shut takes =
    (record { handled = true; events = [] }, rw shut refl, rw takes refl)
