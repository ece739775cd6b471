-- ===== src/Examples/EchoTests.antt =====
-- An instance of the theorem on a whole run of the echo query.
use cloud_sdk_go.Base.{◌≡◌, ◌≢◌, refl, false, [], ◌∷◌, Dict, lookup, insert, message, ok, is_empty}
use cloud_sdk_go.App.Text.{trim_space, trim_left, trim_right, keep, is_space}
use cloud_sdk_go.App.Config.{validate_config, sanitize, check_config, any_empty}
use cloud_sdk_go.App.Notices.{configure_read_stream_gap_notifications, read_stream_gap_tracker}
use cloud_sdk_go.App.Tenants.{
  DeviceResponse, Device, to_device, success, failed, fetch_devices, reply_result, to_devices,
  get_devices, values,
}
use cloud_sdk_go.App.Linking.{set_tenant, store_tenant, store_devices, index_devices}
use cloud_sdk_go.App.Start.{App, new_app}
use cloud_sdk_go.Examples.Files.{continues, load_config}
use cloud_sdk_go.Examples.Consumer.{Replies, reset, open_tenant, keep_tenant}
use cloud_sdk_go.Examples.Echo.{
  EchoConfig, echo_sdk_config, Streams, open_streams, select_device, filter_devices, matches,
  echo_request, run_echo,
}
use cloud_sdk_go.Examples.Selection.{times}
use cloud_sdk_go.Examples.Asked.{run_echo-Asks}
use cloud_sdk_go.Examples.Tests.{disk_files}

abbrev config : EchoConfig
config = record {
  app = record {
    id = "app";
    api_key = "key";
    global_fqdn = "global";
    regional_fqdns = " us" ∷ [];
    read_stream = "r";
    write_stream = "w";
  };
  tenant = record { otp = ""; id = "t1"; name = "Acme"; token = "secret" };
}

abbrev disk : Dict EchoConfig
disk = ("c.yaml", config) ∷ []

abbrev found : DeviceResponse
found = record {
  id = "d1";
  kind = "ise";
  name = "First";
  region = "us-1";
  fqdn = "us";
  enrollment_status = "enrolled";
}

abbrev replies : Replies
replies = record {
  redeemed = failed (message "unused");
  fetched = success (found ∷ []);
  unlinked = success tt;
}

abbrev device : Device
device = record {
  id = "d1";
  kind = "ise";
  name = "First";
  region = "us-1";
  status = "enrolled";
  tenant = record { id = "t1"; name = "Acme"; api_token = "secret" };
  fqdn = "us";
}

abbrev streams : Streams
streams = record { output = ok tt; input = ok tt }

loads : load_config disk_files "c.yaml" disk ≡ ok config
unfolding load_config lookup
loads = refl

runs :
    run_echo disk_files "c.yaml" "x1" "" "" replies streams disk
    ≡ (disk, continues (device, ("POST", "/pxgrid/echo/query")))
unfolding run_echo load_config lookup insert new_app validate_config sanitize check_config any_empty
    trim_space trim_left trim_right keep is_space configure_read_stream_gap_notifications
    read_stream_gap_tracker open_tenant set_tenant store_tenant store_devices index_devices
    fetch_devices reply_result to_devices to_device reset keep_tenant select_device get_devices
    values filter_devices matches open_streams echo_request
runs = refl

run_echo-Asks_example :
    (app : App) × (new_app "x1" (echo_sdk_config config.app) ≡ ok app)
    × (times device.fqdn app.config.regional_fqdns ≢ 0)
    × (is_empty "POST" ≡ false)
    × (is_empty "/pxgrid/echo/query" ≡ false)
run_echo-Asks_example =
    run_echo-Asks disk_files "c.yaml" "x1" "" "" replies streams disk disk config device
      ("POST", "/pxgrid/echo/query") loads refl runs
