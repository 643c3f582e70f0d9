-- ===== src/Mobile/Api.antt =====
-- What mobile/mobile_api.go keeps: the working directory, whether the core runs, and the log
-- entries, with `SetCustomProxy` and `SetLogWriter` as fields of the same state.
pub mod Logs
pub mod Life
use bill_vpn.Common.{
  ℕ, Bool, true, false, not, Option, none, some, List, [], ◌∷◌, ◌++◌, Bytes, codes, length, drop,
  ltb, if◌then◌else◌,
}
use mathlib.Core.List.{flatten}
use bill_vpn.Route.{is_empty}

pub record App : Type 0 where
  pub working_dir : Bytes
  pub is_running : Bool
  pub log_entries : List Bytes
  pub custom_proxy : Bool
  pub log_writer : Bool

-- `maxLogs`
abbrev pub max_logs : ℕ
max_logs = 500

-- `pushLog`, on the entries.
unfoldable pub push_log : Bytes → List Bytes → List Bytes
push_log msg entries =
    let more = entries ++ (msg ∷ []) in if ltb max_logs (length more) then drop 1 more else more

-- `GetLogs`
unfoldable pub get_logs : App → App × Bytes
get_logs app = (record app { log_entries = [] }, flatten app.log_entries)

-- `SetWorkingDir`
abbrev pub set_working_dir : Bytes → App → App
set_working_dir dir app = record app { working_dir = dir }

pub data Started : Type 0 where
  no_directory no_config no_engine started : Started

-- `StartBill`: `entry` is the first log entry, `loads` whether `LoadConfig` returns without an
-- error, and `engine_starts` whether `engine.StartErr` does.
unfoldable pub start_bill : Bytes → Bool → Bool → App → App × Started
unfolding push_log
start_bill entry loads engine_starts app =
    let logging = record app { log_entries = push_log entry []; log_writer = true } in
    if is_empty app.working_dir
    then (app, no_directory)
    else if app.is_running
    then (app, started)
    else if not loads
    then (logging, no_config)
    else if not engine_starts
    then (record logging { custom_proxy = false }, no_engine)
    else (record logging { custom_proxy = true; is_running = true }, started)

-- `StopBill`
unfoldable pub stop_bill : App → App
stop_bill app =
    if app.is_running
    then record app { custom_proxy = false; is_running = false; log_writer = false }
    else app
