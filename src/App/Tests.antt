-- ===== src/App/Tests.antt =====
-- Instances of the theorems on the application, and a test.
use cloud_sdk_go.Base.{
  ◌↔◌, ◌≡◌, refl, ◌≢◌, String, true, false, Option, none, some, List, [], ◌∷◌, All, Failure, lookup,
  insert, erase, Result, ok, is_empty, pos,
}
use cloud_sdk_go.App.Text.{is_space, trim_left, trim_right, keep, trim_space}
use cloud_sdk_go.App.Config.{Handlers, Config, any_empty, sanitize, check_config, validate_config}
use cloud_sdk_go.App.Tenants.{
  Tenant, Device, DeviceResponse, Reply, success, Registry, fetch_devices, to_devices, to_device,
  reply_result, get_device_by_id, ErrorResponse, error_status,
}
use cloud_sdk_go.App.Linking.{
  returns, RedeemResponse, store_devices, store_tenant, unlink_tenant, finish_link, link_tenant,
}
use cloud_sdk_go.App.Messages.{
  ControlPayload, Message, activated, deactivated, unlinked, received, on_activate, on_deactivate,
  on_disconnect, on_control, control_msg_handler, deliver, on_data, data_msg_handler,
  read_stream_handler, read_stream,
}
use cloud_sdk_go.App.Registry.{IsSound, tenant_of}
use cloud_sdk_go.App.Delivery.{unlink_tenant-silent}
use cloud_sdk_go.App.Links.{
  Call, sets, unlinks, receives, calls, no_tenants, session-IsSound, is_success,
  link_tenant_loses_error,
}

abbrev all_handlers : Handlers
all_handlers = record {
  device_activation = true;
  device_deactivation = true;
  tenant_unlinked = true;
  device_message = true;
  read_stream_gap = true;
}

abbrev pub config : Config
config = record {
  id = " app ";
  regional_fqdn = "";
  regional_fqdns = "us" ∷ " eu" ∷ [];
  global_fqdn = "global";
  read_stream_id = "r";
  write_stream_id = "w";
  group_id = "";
  has_transport = true;
  has_get_credentials = true;
  api_key = "";
  handlers = all_handlers;
  status_log_interval = pos 0;
  log_each_message = false;
}

abbrev pub clean_config : Config
clean_config = record config { id = "app"; regional_fqdns = "us" ∷ "eu" ∷ []; group_id = "x1" }

trimmed : trim_space " app " ≡ "app"
unfolding trim_space trim_left trim_right keep is_space
trimmed = refl

pub validated : validate_config "x1" config ≡ ok clean_config
unfolding validate_config check_config any_empty sanitize trim_space trim_left trim_right keep
    is_space
validated = refl

pub x1_trimmed : trim_space "x1" ≡ "x1"
unfolding trim_space trim_left trim_right keep is_space
x1_trimmed = refl

pub d1_visible : is_empty (trim_space "d1") ≡ false
unfolding trim_space trim_left trim_right keep is_space
d1_visible = refl

abbrev acme : Tenant
acme = record { id = "t1"; name = "Acme"; api_token = "secret" }

abbrev reply : DeviceResponse
reply = record {
  id = "d1";
  kind = "ise";
  name = "D";
  region = "us";
  fqdn = "us";
  enrollment_status = "enrolled";
}

abbrev device : Device
device = record {
  id = "d1";
  kind = "ise";
  name = "D";
  region = "us";
  status = "enrolled";
  tenant = acme;
  fqdn = "us";
}

abbrev fetch : Tenant → String → Reply DeviceResponse
fetch t id = success reply

abbrev decode : String → Result ControlPayload
decode text = ok (record { kind = text; tenant = "t1"; device = "d1"; streams = [] })

abbrev control : String → Message
control kind = record {
  error = none;
  id = "m";
  headers = ("messageType", "control") ∷ [];
  payload = kind;
}

abbrev data_message : Message
data_message = record {
  error = none;
  id = "m";
  headers =
      ("messageType", "data")
      ∷ ("tenant", "t1")
      ∷ ("device", "d1")
      ∷ ("stream", "s")
      ∷ ("messageID", "id1")
      ∷ [];
  payload = "hello";
}

abbrev messages : List Message
messages =
    control "device:activate"
    ∷ data_message
    ∷ control "device:deactivate"
    ∷ control "app:disconnect"
    ∷ data_message
    ∷ []

abbrev session : List Call
session =
    sets "t1" "Acme" "secret" (success [])
    ∷ receives (control "device:activate") fetch
    ∷ unlinks acme (success tt)
    ∷ sets "t1" "Acme" "secret" (success [])
    ∷ []

abbrev linked_registry : Registry
linked_registry = calls clean_config decode session no_tenants

linked_registry-IsSound : IsSound linked_registry
linked_registry-IsSound = session-IsSound clean_config decode session

session-IsSound_example : IsSound (calls clean_config decode session no_tenants)
session-IsSound_example = session-IsSound clean_config decode session

callbacks :
    (read_stream all_handlers fetch decode messages
      (record { tenants = ("t1", acme) ∷ []; devices = ("t1", []) ∷ []; connecting = true })).1
    ≡ activated device ∷ received "id1" device "s" "hello" ∷ deactivated device ∷ unlinked acme ∷ []
unfolding read_stream read_stream_handler control_msg_handler data_msg_handler on_control
    on_activate on_deactivate on_disconnect on_data deliver get_device_by_id to_device reply_result
    lookup insert erase
callbacks = refl

unlink_tenant-silent_example :
    All
      (λ e. tenant_of e ≢ "t1")
      (read_stream all_handlers fetch decode messages
        (unlink_tenant acme (success tt) linked_registry).0).1
unlink_tenant-silent_example =
    unlink_tenant-silent all_handlers fetch decode acme (success tt) messages linked_registry
      linked_registry-IsSound

abbrev redeemed : RedeemResponse
redeemed = record { token = "secret"; tenant_id = "t1"; tenant_name = "Acme" }

abbrev denied : ErrorResponse
denied = record { error = "denied"; text = "" }

link_tenant_loses_error_example :
    ((link_tenant clean_config
        (success redeemed)
        (error_status 403 denied)
        (success tt)
        no_tenants).1
      ≡ returns (none, none))
    ↔ ((is_success (success redeemed) ≡ true)
        × (is_success {A = List DeviceResponse} (error_status 403 denied) ≡ false)
        × (is_success {A = Unit {0}} (success tt) ≡ true))
link_tenant_loses_error_example =
    link_tenant_loses_error clean_config (success redeemed) (error_status 403 denied) (success tt)
      no_tenants refl

abbrev no_transport : Config
no_transport = record clean_config { has_transport = false }

links_acme :
    (link_tenant clean_config (success redeemed) (success (reply ∷ [])) (success tt) no_tenants).1
    ≡ returns (some acme, none)
unfolding link_tenant finish_link store_tenant store_devices fetch_devices reply_result to_devices
links_acme = refl

abbrev no_failure : Option Failure
no_failure = none
