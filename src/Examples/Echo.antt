-- ===== src/Examples/Echo.antt =====
-- The echo query (examples/echo-query/main.go): which device it asks, and for what.
--
-- The query itself and the input and output files are arguments.
use cloud_sdk_go.Base.{
  Result, String, true, false, List, [], ◌∷◌, ◌++◌, ok, err, is_empty, not, str_eq, pos,
  if◌then◌else◌,
}
use cloud_sdk_go.App.Tenants.{Tenant, Device, Registry, get_devices}
use cloud_sdk_go.App.Config.{Config}
use cloud_sdk_go.App.Linking.{is_nil}
use cloud_sdk_go.App.Start.{new_app, App}
use cloud_sdk_go.Examples.Files.{Files, Ending, crashes, exits, continues, load_config}
use cloud_sdk_go.Examples.Consumer.{
  TenantConfig, Replies, tenant_entry, open_tenant, keep_tenant, example_handlers,
}

-- The inner loop over the configured regions: the device once for each that is its own.
unfoldable pub matches : Device → List String → List Device
matches d [] = []
matches d (fqdn ∷ fqdns) =
    let rest = matches d fqdns in if str_eq d.fqdn fqdn then d ∷ rest else rest

-- The loop over the devices.
unfoldable pub filter_devices : List String → String → List Device → List Device
unfolding matches
filter_devices fqdns fqdn [] = []
filter_devices fqdns fqdn (d ∷ ds) =
    let rest = filter_devices fqdns fqdn ds in
    if not (is_nil fqdns)
    then matches d fqdns ++ rest
    else if str_eq d.fqdn fqdn
    then d ∷ rest
    else rest

-- `filteredDevices[0]`, whose index is not tested.
abbrev pub first_device : List Device → Ending Device
first_device [] = crashes
first_device (d ∷ ds) = continues d

-- The devices of the tenant, and the first of those that are left.
unfoldable pub select_device : List String → String → Tenant → Registry → Ending Device
unfolding filter_devices get_devices
select_device fqdns fqdn t r = elim (get_devices t r) [
  | err e ↦ exits 255
  | ok [] ↦ exits 255
  | ok (d ∷ ds) ↦ first_device (filter_devices fqdns fqdn (d ∷ ds))
]

-- The method and the path of the request, with their defaults.
unfoldable pub echo_request : String → String → String × String
echo_request method url =
    (if is_empty method then "POST" else method, if is_empty url then "/pxgrid/echo/query" else url)

pub record EchoAppConfig : Type 0 where
  pub id : String
  pub api_key : String
  pub global_fqdn : String
  pub regional_fqdns : List String
  pub read_stream : String
  pub write_stream : String

pub record EchoConfig : Type 0 where
  pub app : EchoAppConfig
  pub tenant : TenantConfig

abbrev pub echo_sdk_config : EchoAppConfig → Config
echo_sdk_config c = record {
  id = c.id;
  regional_fqdn = "";
  regional_fqdns = c.regional_fqdns;
  global_fqdn = c.global_fqdn;
  read_stream_id = c.read_stream;
  write_stream_id = c.write_stream;
  group_id = "";
  has_transport = true;
  has_get_credentials = true;
  api_key = "";
  handlers = example_handlers;
  status_log_interval = pos 0;
  log_each_message = false;
}

-- The regions that `main` compares with. `New` trims them in the slice that `main` shares with it.
abbrev pub shared_fqdns : EchoAppConfig → App → List String
shared_fqdns c app = if is_nil c.regional_fqdns then [] else app.config.regional_fqdns

-- Whether the output file can be created and the input file opened; both are fine when none is
-- named on the command line.
pub record Streams : Type 0 where
  pub output : Result (Unit {0})
  pub input : Result (Unit {0})

-- What `main` makes of the files: each error is a panic.
unfoldable pub open_streams : Streams → Ending Device → Ending Device
open_streams s crashes = crashes
open_streams s (exits status) = exits status
open_streams s (continues device) = elim s.output [
  | err e ↦ crashes
  | ok u ↦ elim s.input [ err e ↦ crashes | ok u ↦ continues device ]
]

-- `main`, up to the query: the device and the request.
unfoldable pub run_echo :
    {D : Type 0}
    → Files D EchoConfig
    → (path xid method url : String) → Replies
    → Streams
    → D
    → D × Ending (Device × (String × String))
unfolding load_config new_app open_tenant keep_tenant tenant_entry select_device open_streams
    echo_request
run_echo files path xid method url replies streams d = elim (load_config files path d) [
  | err e ↦ (d, crashes)
  | ok c ↦ elim (new_app xid (echo_sdk_config c.app)) [
    | err e ↦ (d, crashes)
    | ok app ↦
        let (r, ending) = open_tenant app.config replies c.tenant in
        (
          keep_tenant files path c.tenant.otp (λ t. record c { tenant = tenant_entry t }) ending d,
          elim ending [
            | crashes ↦ crashes
            | exits status ↦ exits status
            | continues t ↦
                elim (open_streams streams (select_device (shared_fqdns c.app app) "" t r)) [
                  | crashes ↦ crashes
                  | exits status ↦ exits status
                  | continues device ↦ continues (device, echo_request method url)
                ]
          ],
        )
  ]
]
