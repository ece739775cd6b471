-- ===== src/Examples/Diagnosis.antt =====
-- `main` of the diagnostics example (examples/read-stream-diagnostics/main.go). The programs that
-- it starts are in Devices, Simulator and Publisher; the instance is opened as in Instance.
use cloud_sdk_go.Base.{
  String, Bool, true, false, ◌||◌, none, some, List, [], ◌∷◌, Dict, ℤ, pos, leb_ℤ, message, Result,
  ok, err, fail_if, ◌>>◌, is_empty, str_eq, if◌then◌else◌,
}
use cloud_sdk_go.App.Config.{Config}
use cloud_sdk_go.App.Text.{trim_space}
use cloud_sdk_go.App.Tenants.{Device, Reply, get_devices}
use cloud_sdk_go.App.Start.{new_app}
use cloud_sdk_go.App.Instances.{CreateAppInstanceResponse}
use cloud_sdk_go.Gap.Tracker.{GapState, detected, recovered}
use cloud_sdk_go.Examples.Files.{
  Files, Ending, crashes, exits, continues, load_config, store_config,
}
use cloud_sdk_go.Examples.Consumer.{AppConfig, Replies, example_handlers}
use cloud_sdk_go.Examples.Instance.{InstanceConfig, Instance, open_instance, instance_entry}
use cloud_sdk_go.Examples.Devices.{add}

-- The flags of the command line.
pub record Flags : Type 0 where
  pub config_file : String
  pub status_interval : ℤ
  pub log_each_message : Bool
  pub publish_interval : ℤ
  pub callback_mode : String
  pub slow_duration : ℤ
  pub block_duration : ℤ

unfoldable pub validate_callback_mode : String → Result (Unit {0})
validate_callback_mode mode =
    if str_eq mode "cycle" || str_eq mode "normal" || str_eq mode "slow" || str_eq mode "blocked"
    then ok tt
    else err (message "invalid callback mode")

-- The tests of the flags: each ends the program with status 2.
unfoldable pub check_flags : Flags → Result (Unit {0})
unfolding validate_callback_mode
check_flags f = do
  fail_if (is_empty (trim_space f.config_file)) (message "-config is required")
  fail_if
      (leb_ℤ f.status_interval (pos 0)
        || leb_ℤ f.publish_interval (pos 0)
        || leb_ℤ f.slow_duration (pos 0)
        || leb_ℤ f.block_duration (pos 0))
      (message "all duration flags must be greater than zero")
  validate_callback_mode f.callback_mode

-- The SDK's configuration, with every option of the diagnostics.
unfoldable pub diagnosis_config : Flags → AppConfig → Config
diagnosis_config f c = record {
  id = c.id;
  regional_fqdn = c.regional_fqdn;
  regional_fqdns = c.regional_fqdns;
  global_fqdn = c.global_fqdn;
  read_stream_id = c.read_stream;
  write_stream_id = c.write_stream;
  group_id = c.group_id;
  has_transport = true;
  has_get_credentials = true;
  api_key = "";
  handlers = record example_handlers { read_stream_gap = true };
  status_log_interval = f.status_interval;
  log_each_message = f.log_each_message;
}

-- The devices that were loaded, added one by one.
unfoldable pub add_all : List Device → Dict Device → Dict Device
unfolding add
add_all [] m = m
add_all (d ∷ ds) m = add_all ds (add d m)

-- The instance that goes on, with the devices that the registry begins with.
pub record Started : Type 0 where
  pub started : Instance
  pub devices : Dict Device

-- What follows when the instance is open.
unfoldable pub load_devices : Ending Instance → Ending Started
unfolding get_devices add_all
load_devices crashes = crashes
load_devices (exits status) = exits status
load_devices (continues i) = elim (get_devices i.tenant i.registry) [
  | err e ↦ crashes
  | ok devices ↦ continues (record { started = i; devices = add_all devices [] })
]

module _ {D : Type 0} (files : Files D InstanceConfig) where
  -- Every error of the part that opens the instance is a panic, that of the store too.
  unfoldable pub keep_or_panic : String → InstanceConfig → Ending Instance → D → D × Ending Instance
  unfolding store_config
  keep_or_panic path c crashes d = (d, crashes)
  keep_or_panic path c (exits status) d = (d, crashes)
  keep_or_panic path c (continues i) d =
      let ac = c.instance_config in
      if is_empty ac.otp
      then (d, continues i)
      else (let (d', failure) =
            store_config files (record c { instance_config = instance_entry ac i.app i.tenant })
              path d in
          (d', elim failure [ none ↦ continues i | some e ↦ crashes ]))

  -- `main`, up to the start of the publisher and the loop that waits for errors and the end.
  unfoldable pub run_diagnosis :
      Flags
      → (xid xid' : String) → Reply CreateAppInstanceResponse
      → Replies
      → D
      → D × Ending Started
  unfolding check_flags load_config new_app diagnosis_config open_instance keep_or_panic
      load_devices
  run_diagnosis flags xid xid' created replies d = elim (check_flags flags) [
    | err e ↦ (d, exits 2)
    | ok u ↦ elim (load_config files flags.config_file d) [
      | err e ↦ (d, crashes)
      | ok c ↦ elim (new_app xid (diagnosis_config flags c.app)) [
        | err e ↦ (d, crashes)
        | ok app ↦
            let (d', ending) =
              keep_or_panic flags.config_file c
                (open_instance xid' created replies c.instance_config app) d in
            (d', load_devices ending)
      ]
    ]
  ]

-- Whether the line about a notification is a warning.
unfoldable pub warns : GapState → Bool
warns detected = true
warns recovered = false
