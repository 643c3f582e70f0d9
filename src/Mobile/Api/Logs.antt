-- ===== src/Mobile/Api/Logs.antt =====
-- The log entries and the life cycle of mobile/mobile_api.go.
use bill_vpn.Common.{
  ℕ, zero, suc, ◌+◌, ◌-◌, ◌≤◌, ◌≡◌, refl, ap, ◌∙◌, List, [], ◌∷◌, ◌++◌, Bytes, length,
  length-append, drop, length-drop, ltb, ltb→lt, arith, Bool-cases, inl, inr, append_assoc,
  drop-drop, append-nil,
}
use mathlib.Core.List.{flatten}
use bill_vpn.Mobile.Api.{App, push_log, max_logs, get_logs}

-- A sequence of messages.
unfoldable pub push_logs : List Bytes → List Bytes → List Bytes
push_logs [] entries = entries
push_logs (m ∷ ms) entries = push_logs ms (push_log m entries)

drop-append_inside :
    (k : ℕ) (xs ys : List Bytes) → k ≤ length xs → drop k xs ++ ys ≡ drop k (xs ++ ys)
drop-append_inside zero xs ys h = refl
drop-append_inside (suc k) [] ys h = absurd (omega arith)
drop-append_inside (suc k) (x ∷ xs) ys h = drop-append_inside k xs ys (omega arith)

-- The last 500 of a list.
unfoldable pub latest : List Bytes → List Bytes
latest ms = drop (length ms - max_logs) ms

push_log-latest : (m : Bytes) (ms : List Bytes) → push_log m (latest ms) ≡ latest (ms ++ (m ∷ []))
unfolding push_log latest
push_log-latest m ms =
    let more = ms ++ (m ∷ []) in
    let k = length ms - max_logs in
    let size : length more ≡ length ms + 1 = length-append ms (m ∷ []) in
    let rest : length (drop k more) ≡ length more - k = length-drop k more in
    let shift : drop k ms ++ (m ∷ []) ≡ drop k more =
      drop-append_inside k ms (m ∷ []) (omega arith) in
    elim (Bool-cases (ltb max_logs (length (drop k more))))
      as (λ _. push_log m (latest ms) ≡ latest more) [
        | inl e ↦
            let long = ltb→lt max_logs (length (drop k more)) e in
            rw (push_log, latest, shift, e, drop-drop 1 k more)
              (ap (λ n. drop n more) (omega arith))
        | inr e ↦
            let short : length (drop k more) ≤ max_logs = ground (arith, e) in
            rw (push_log, latest, shift, e) (ap (λ n. drop n more) (omega arith))
      ]

push_logs-latest : (new old : List Bytes) → push_logs new (latest old) ≡ latest (old ++ new)
unfolding push_logs
push_logs-latest [] old = rw (append-nil old) refl
push_logs-latest (m ∷ ms) old =
    ap (push_logs ms) (push_log-latest m old)
    ∙ (push_logs-latest ms (old ++ (m ∷ [])) ∙ ap latest (append_assoc old (m ∷ []) ms))

-- After any number of messages since the entries were last empty, `GetLogs` returns the last 500
-- of them, joined in their order, and leaves no entry.
pub get_logs-push_logs :
    (app : App) (ms : List Bytes)
    → get_logs (record app { log_entries = push_logs ms [] })
      ≡ (record app { log_entries = [] }, flatten (drop (length ms - 500) ms))
unfolding get_logs latest
get_logs-push_logs app ms = rw (push_logs-latest ms []) refl
