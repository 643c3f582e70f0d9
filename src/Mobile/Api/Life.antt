-- ===== src/Mobile/Api/Life.antt =====
-- The life cycle of mobile/mobile_api.go over any sequence of calls.
use bill_vpn.Common.{
  ◌≡◌, refl, sym, Bool, true, false, not, List, [], ◌∷◌, Bytes, if◌then◌else◌, arith,
}
use bill_vpn.Route.{is_empty}
use bill_vpn.Mobile.Api.{App, Started, push_log, get_logs, set_working_dir, start_bill, stop_bill}

pub data Call : Type 0 where
  sets_working_dir : Bytes → Call
  starts : Bytes → Bool → Bool → Call
  stops gets_logs : Call
  logs : Bytes → Call

pub step : App → Call → App
unfolding start_bill stop_bill get_logs push_log
step app (sets_working_dir dir) = set_working_dir dir app
step app (starts entry loads engine_starts) = (start_bill entry loads engine_starts app).0
step app stops = stop_bill app
step app gets_logs = (get_logs app).0
step app (logs msg) = record app { log_entries = push_log msg app.log_entries }

pub run_calls : List Call → App → App
unfolding step
run_calls [] app = app
run_calls (c ∷ cs) app = run_calls cs (step app c)

-- The engine has the custom proxy while the core runs and only then, and the core's log goes to
-- the entries while it runs.
pub record IsConsistent (app : App) : Type 0 where
  pub proxied : app.custom_proxy ≡ app.is_running
  pub logged : app.is_running ≡ true → app.log_writer ≡ true

IsConsistent-if :
    (b : Bool) {x y : App}
    → (b ≡ true → IsConsistent x)
    → (b ≡ false → IsConsistent y)
    → IsConsistent (if b then x else y)
IsConsistent-if true h k = h refl
IsConsistent-if false h k = k refl

data Kept : App × Started → Type 0 where
  kept : {app : App} {r : Started} → IsConsistent app → Kept (app, r)

Kept-fst : {r : App × Started} → Kept r → IsConsistent r.0
Kept-fst (kept h) = h

Kept-if :
    (b : Bool) {x y : App × Started}
    → (b ≡ true → Kept x)
    → (b ≡ false → Kept y)
    → Kept (if b then x else y)
Kept-if true h k = h refl
Kept-if false h k = k refl

start_bill-Kept :
    (entry : Bytes) (loads engine_starts : Bool) (app : App)
    → IsConsistent app
    → Kept (start_bill entry loads engine_starts app)
unfolding start_bill
start_bill-Kept entry loads engine_starts app h =
    Kept-if (is_empty app.working_dir) (λ e. kept h)
      (λ e.
        Kept-if app.is_running (λ f. kept h)
          (λ f.
            Kept-if (not loads) (λ g. kept (record { proxied = h.proxied; logged = λ k. refl }))
              (λ g.
                Kept-if (not engine_starts)
                  (λ k. kept (record { proxied = sym f; logged = λ k. refl }))
                  (λ k. kept (record { proxied = refl; logged = λ k. refl })))))

step-IsConsistent : (app : App) (c : Call) → IsConsistent app → IsConsistent (step app c)
unfolding step stop_bill get_logs
step-IsConsistent app (sets_working_dir dir) h = record { proxied = h.proxied; logged = h.logged }
step-IsConsistent app (starts entry loads engine_starts) h =
    Kept-fst (start_bill-Kept entry loads engine_starts app h)
step-IsConsistent app stops h =
    IsConsistent-if app.is_running
      (λ e. record { proxied = refl; logged = λ k. absurd (ground (arith, k)) }) (λ e. h)
step-IsConsistent app gets_logs h = record { proxied = h.proxied; logged = h.logged }
step-IsConsistent app (logs msg) h = record { proxied = h.proxied; logged = h.logged }

-- Whatever calls the application makes, from a consistent state on: the engine has the proxy of
-- this library exactly while the core runs, and then the core logs to the entries.
pub run_calls-IsConsistent :
    (cs : List Call) (app : App) → IsConsistent app → IsConsistent (run_calls cs app)
unfolding run_calls
run_calls-IsConsistent [] app h = h
run_calls-IsConsistent (c ∷ cs) app h =
    run_calls-IsConsistent cs (step app c) (step-IsConsistent app c h)
