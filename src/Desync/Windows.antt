-- ===== src/Desync/Windows.antt =====
-- The fake first packet on Windows: `desyncSend` and `sendWithNoise` of internal/desync_windows.go
-- as the calls they make, in order, up to the first that fails. The kernel sends from a file, whose
-- bytes are changed under it. Which call fails is an argument, and so are the default TTL and
-- whether there is a semaphore.
pub mod Whole
use bill_vpn.Common.{
  Bool, true, false, Option, none, some, List, [], ◌∷◌, ◌++◌, Bytes, ℕ, length, drop, if◌then◌else◌,
  ◌==◌, ◌>>=◌, ℤ,
}
use bill_vpn.Fragment.{find_last_dot, cut_at}
use bill_vpn.Desync.{fake_data, least_sleep}

-- `get_ttl` stands for the calls by which the socket and its TTL are found, `transmit` for
-- `TransmitFile` with the two that hand it the file, and `wait` for the wait and the test of its
-- result.
pub data Call : Type 0 where
  get_ttl create_temp seek_start sync create_event acquire wait : Call
  set_ttl : ℤ → Call
  write_file : Bytes → Call
  transmit : ℕ → Call
  sleep_for : ℤ → Call
  write_rest : Bytes → Call

-- Calls one after the other, up to the first that fails; the Boolean says that none has.
unfoldable pub run : (List Call → Call → Bool) → List Call → List Call → List Call × Bool
run ok before [] = (before, true)
run ok before (c ∷ cs) =
    let rest = run ok (before ++ (c ∷ [])) cs in if ok before c then rest else (before, false)

abbrev pub acquires : Bool → List Call
acquires true = acquire ∷ []
acquires false = []

-- The calls of `sendWithNoise` for two parts of the same length.
unfoldable pub noise : Bool → Bytes → Bytes → ℤ → ℤ → ℤ → List Call
noise limited fake real fake_ttl default_ttl fake_sleep =
    create_temp
    ∷ seek_start
    ∷ write_file fake
    ∷ sync
    ∷ set_ttl fake_ttl
    ∷ seek_start
    ∷ create_event
    ∷ (acquires limited
        ++ (transmit (length fake)
            ∷ sleep_for fake_sleep
            ∷ seek_start
            ∷ write_file real
            ∷ sync
            ∷ seek_start
            ∷ set_ttl default_ttl
            ∷ wait
            ∷ []))

-- `sendWithNoise`
unfoldable pub send_with_noise :
    (List Call → Call → Bool) → List Call → Bool → Bytes → Bytes → ℤ → ℤ → ℤ → List Call × Bool
unfolding noise run
send_with_noise ok before limited fake real fake_ttl default_ttl fake_sleep =
    if length fake == length real
    then run ok before (noise limited fake real fake_ttl default_ttl fake_sleep)
    else (before, false)

abbrev pub then_rest : (List Call → Call → Bool) → Bytes → List Call × Bool → List Call × Bool
then_rest ok rest (calls, false) = (calls, false)
then_rest ok rest (calls, true) = run ok calls (write_rest rest ∷ [])

-- `desyncSend`; `none` is a panic.
unfoldable pub desync_send :
    (List Call → Call → Bool) → ℤ → Bool → Bytes → ℤ → ℕ → ℤ → ℤ → Option (List Call × Bool)
unfolding send_with_noise run
desync_send ok default_ttl limited packet sni_pos sni_len fake_ttl fake_sleep =
    if ok [] get_ttl
    then (do
      (cut, found) ← find_last_dot packet sni_pos sni_len
      (before, rest) ← cut_at packet 0 cut
      fake ← fake_data packet sni_pos before found
      some (
          then_rest ok rest (
            send_with_noise ok (get_ttl ∷ []) limited fake before fake_ttl default_ttl
              (least_sleep fake_sleep))))
    else some ([], false)
