-- ===== src/Examples/DiagnosisTests.antt =====
-- An instance of the theorem on the second run of the diagnostics example.
use cloud_sdk_go.Base.{◌≡◌, refl, true, [], ◌∷◌, Dict, lookup, insert, pos, message, ok}
use cloud_sdk_go.App.Text.{trim_space, trim_left, trim_right, keep, is_space}
use cloud_sdk_go.App.Config.{validate_config, sanitize, check_config, any_empty, new_app_config}
use cloud_sdk_go.App.Notices.{configure_read_stream_gap_notifications, read_stream_gap_tracker}
use cloud_sdk_go.App.Tenants.{
  success, failed, fetch_devices, reply_result, to_devices, get_devices, values,
}
use cloud_sdk_go.App.Linking.{link_tenant, store_tenant, store_devices, finish_link, index_devices}
use cloud_sdk_go.App.Start.{new_app}
use cloud_sdk_go.App.Instances.{CreateAppInstanceResponse, create_app_instance, set_app_instance}
use cloud_sdk_go.App.Tests.{x1_trimmed}
use cloud_sdk_go.Gap.Tracker.{new_gap_tracker}
use cloud_sdk_go.Examples.Files.{continues, load_config, store_config}
use cloud_sdk_go.Examples.Consumer.{linked}
use cloud_sdk_go.Examples.Instance.{InstanceConfig, open_instance}
use cloud_sdk_go.Examples.Diagnosis.{
  Flags, Started, run_diagnosis, check_flags, validate_callback_mode, diagnosis_config,
  keep_or_panic, load_devices, add_all,
}
use cloud_sdk_go.Examples.Reopened.{diagnosis_restarts}
use cloud_sdk_go.Examples.Tests.{disk_files, disk_files-IsFaithful, app_config, replies}

abbrev instance_config : InstanceConfig
instance_config = record {
  app = record app_config { group_id = "g" };
  instance_config = record {
    otp = "1234";
    name = "one";
    id = "";
    api_key = "";
    tenant = record { id = ""; name = ""; token = "" };
  };
}

abbrev flags : Flags
flags = record {
  config_file = "c.yaml";
  status_interval = pos 10;
  log_each_message = true;
  publish_interval = pos 3;
  callback_mode = "cycle";
  slow_duration = pos 12;
  block_duration = pos 40;
}

abbrev disk : Dict InstanceConfig
disk = ("c.yaml", instance_config) ∷ []

abbrev created : CreateAppInstanceResponse
created = record { id = "i1"; api_key = "k1" }

loads : load_config disk_files "c.yaml" disk ≡ ok instance_config
unfolding load_config lookup
loads = refl

flags-checked : check_flags flags ≡ ok tt
unfolding check_flags validate_callback_mode trim_space trim_left trim_right keep is_space
flags-checked = refl

-- The first run, with the disk that it leaves.
runs :
    (d' : Dict InstanceConfig) × (first : Started) × (run_diagnosis disk_files flags "x1" "x2"
        (success created)
        replies
        disk
      ≡ (d', continues first))
unfolding run_diagnosis keep_or_panic store_config insert open_instance link_tenant store_tenant
    store_devices finish_link index_devices fetch_devices reply_result to_devices linked
    create_app_instance set_app_instance new_app validate_config sanitize check_config any_empty
    new_app_config diagnosis_config load_devices get_devices values add_all lookup trim_space
    trim_left trim_right keep is_space check_flags validate_callback_mode load_config
    configure_read_stream_gap_notifications read_stream_gap_tracker new_gap_tracker
runs = (_, _, refl)

diagnosis_restarts_example :
    (again : Started) × (run_diagnosis disk_files flags "x1" "x3"
        (failed (message "no more instances"))
        (record { redeemed = failed (message "used"); fetched = success []; unlinked = success tt })
        runs.0
      ≡ (runs.0, continues again))
    × (again.started.tenant ≡ runs.1.started.tenant)
    × (again.started.app.config.id ≡ runs.1.started.app.config.id)
    × (again.started.app.config.api_key ≡ runs.1.started.app.config.api_key)
diagnosis_restarts_example =
    diagnosis_restarts disk_files flags "x1" "x2" "x1" "x3" (success created)
      (failed (message "no more instances")) replies (failed (message "used")) (success tt) [] disk
      runs.0 instance_config runs.1 (disk_files-IsFaithful InstanceConfig) x1_trimmed refl loads
      refl runs.2
