-- ===== src/Desync.antt =====
-- The fake first packet: `desyncSend` and `sendWithNoise` of internal/desync_linux.go, up to the
-- system calls that succeed, in order. How each call ends, the default TTL and the size of a page are arguments.
-- The page that the pipe is given is the one that the kernel sends from, so its bytes are kept.
pub mod Sends
pub mod Windows
pub mod Tests
use bill_vpn.Common.{
  ℕ, zero, suc, ◌+◌, ◌-◌, ◌*◌, ◌/◌, Bool, true, false, Option, none, some, List, [], ◌∷◌, ◌++◌,
  Bytes, length, take, drop, slice, if◌then◌else◌, ◌>>=◌, ℤ, pos, negsuc, ltb_ℤ,
}
use bill_vpn.Fragment.{find_last_dot, cut_at}

-- `make([]byte, n)`
abbrev pub zeros : ℕ → Bytes
zeros zero = []
zeros (suc n) = 0 ∷ zeros n

-- `copy(dst, src)`: what `dst` holds afterwards.
abbrev pub copy : Bytes → Bytes → Bytes
copy dst src = take (length dst) src ++ drop (length src) dst

pub data Syscall : Type 0 where
  set_ttl : ℤ → Syscall
  gift : Bytes → ℕ → Syscall
  sleep_for : ℤ → Syscall
  overwrite : Bytes → Syscall
  write_rest : Bytes → Syscall

-- One call of `unix.Splice`.
pub data Splice : Type 0 where
  moved : ℕ → Splice
  interrupted again broke : Splice

pub data Ending : Type 0 where
  done failed hangs : Ending

-- The callback of `rawConn.Write`, called again after each `again`; it hangs where the pipe
-- moves no more.
unfoldable pub splice_loop : List Splice → ℕ → Ending
splice_loop outcomes zero = done
splice_loop [] (suc n) = hangs
splice_loop (moved k ∷ outcomes) (suc n) = splice_loop outcomes (suc n - k)
splice_loop (interrupted ∷ outcomes) (suc n) = splice_loop outcomes (suc n)
splice_loop (again ∷ outcomes) (suc n) = splice_loop outcomes (suc n)
splice_loop (broke ∷ outcomes) (suc n) = failed

-- How the calls end.
pub record Outcomes : Type 0 where
  pub raw_conn_ok : Bool
  pub control_ok : Bool
  pub default_ttl : Option ℤ
  pub pipe_ok : Bool
  pub mmap_ok : Bool
  pub fake_ttl_ok : Bool
  pub vmsplice_ok : Bool
  pub splices : List Splice
  pub reset_ok : Bool
  pub raw_write_ok : Bool
  pub rest_ok : Bool
  pub page_size : ℕ

-- `mmapLen`
pub mmap_len : ℕ → ℕ → ℕ
mmap_len page n = ((n + page - 1) / page) * page

-- What `<-done` waits for, and the two checks behind it.
pub await : Outcomes → ℕ → Ending
unfolding splice_loop
await o n = elim (splice_loop o.splices n) [
  | hangs ↦ hangs
  | done ↦ if o.raw_write_ok then done else failed
  | failed ↦ failed
]

-- `sendWithNoise`
pub send_with_noise : Outcomes → Bytes → Bytes → ℤ → ℤ → ℤ → List Syscall × Ending
unfolding await mmap_len
send_with_noise o fake real fake_ttl default_ttl fake_sleep =
    let page = copy (zeros (mmap_len o.page_size (length fake))) fake in
    if not_all o
    then ([], failed)
    else if o.fake_ttl_ok
    then if o.vmsplice_ok
      then (let sent : List Syscall =
            set_ttl fake_ttl
            ∷ gift page (length fake)
            ∷ sleep_for fake_sleep
            ∷ overwrite (copy page real)
            ∷ [] in
          if o.reset_ok
          then (sent ++ (set_ttl default_ttl ∷ []), await o (length fake))
          else (sent, failed))
      else (set_ttl fake_ttl ∷ [], failed)
    else ([], failed)
  where
    not_all : Outcomes → Bool
    not_all o = if o.pipe_ok then if o.mmap_ok then false else true else true

-- The packet that no one is to get.
unfoldable pub fake_data : Bytes → ℤ → Bytes → Bool → Option Bytes
fake_data packet sni_pos before true = elim sni_pos [
  | negsuc _ ↦ none
  | pos n ↦ slice packet 0 n >>= (λ head. some (copy (zeros (length before)) head))
]
fake_data packet sni_pos before false = some before

abbrev pub then_write : Outcomes → Bytes → List Syscall × Ending → List Syscall × Ending
then_write o rest (calls, done) =
    if o.rest_ok then (calls ++ (write_rest rest ∷ []), done) else (calls, failed)
then_write o rest (calls, failed) = (calls, failed)
then_write o rest (calls, hangs) = (calls, hangs)

-- `minInterval`, in nanoseconds.
abbrev pub min_interval : ℤ
min_interval = pos 100000000

abbrev pub least_sleep : ℤ → ℤ
least_sleep s = if ltb_ℤ s min_interval then min_interval else s

-- `desyncSend`; `none` is a panic.
pub desync_send : Outcomes → Bytes → ℤ → ℕ → ℤ → ℤ → Option (List Syscall × Ending)
unfolding send_with_noise fake_data
desync_send o packet sni_pos sni_len fake_ttl fake_sleep =
    if o.raw_conn_ok
    then if o.control_ok
      then elim o.default_ttl [
        | none ↦ some ([], failed)
        | some ttl ↦ do
          (cut, found) ← find_last_dot packet sni_pos sni_len
          (before, rest) ← cut_at packet 0 cut
          fake ← fake_data packet sni_pos before found
          some (
              then_write o rest
                (send_with_noise o fake before fake_ttl ttl (least_sleep fake_sleep)))
      ]
      else some ([], failed)
    else some ([], failed)
