-- ===== src/Desync/Windows/Whole.antt =====
-- What `desyncSend` of internal/desync_windows.go sends.
use bill_vpn.Common.{
  ℕ, ◌≤◌, ◌≡◌, Bool, true, false, List, [], ◌∷◌, ◌++◌, Bytes, length, if◌then◌else◌, ℤ,
}
use bill_vpn.Desync.{least_sleep}
use bill_vpn.Desync.Sends.{HidesName}
use bill_vpn.Desync.Windows.{
  Call, get_ttl, create_temp, seek_start, write_file, sync, set_ttl, create_event, acquire,
  transmit, sleep_for, wait, write_rest,
}

-- A run makes all calls, or those before one that fails.
pub data Ran (before cs : List Call) : List Call × Bool → Type 0 where
  all_made : {calls : List Call} → calls ≡ before ++ cs → Ran before cs (calls, true)
  stopped :
      {calls : List Call} (xs : List Call) (c : Call) (ys : List Call)
      → calls ≡ before ++ xs
      → cs ≡ xs ++ (c ∷ ys)
      → Ran before cs (calls, false)

-- The slot of the semaphore, when there is one.
abbrev slot : Bool → List Call
slot limited = if limited then acquire ∷ [] else []

-- The calls for a packet, with fake bytes and the first part of the packet, which are as many, and
-- the rest of the packet, written out in their order.
pub record Plan (packet : Bytes) (n : ℕ) (limited : Bool) (fake_ttl ttl sleep : ℤ)
    (calls : List Call) : Type 0 where
  pub fake : Bytes
  pub real : Bytes
  pub rest : Bytes
  pub as_many : length fake ≡ length real
  pub whole : real ++ rest ≡ packet
  pub covers : n ≤ length fake
  pub hides : HidesName packet n fake
  pub in_order :
      calls
      ≡ get_ttl
        ∷ create_temp
        ∷ seek_start
        ∷ write_file fake
        ∷ sync
        ∷ set_ttl fake_ttl
        ∷ seek_start
        ∷ create_event
        ∷ (slot limited
            ++ (transmit (length fake)
                ∷ sleep_for (least_sleep sleep)
                ∷ seek_start
                ∷ write_file real
                ∷ sync
                ∷ seek_start
                ∷ set_ttl ttl
                ∷ wait
                ∷ write_rest rest
                ∷ []))

-- The calls for the packet, all of them, or up to one that fails.
pub Sent : Bytes → ℕ → Bool → ℤ → ℤ → ℤ → List Call × Bool → Type 0
Sent packet n limited fake_ttl ttl sleep r =
    (calls : List Call) × Plan packet n limited fake_ttl ttl sleep calls × Ran [] calls r
