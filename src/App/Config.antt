-- ===== src/App/Config.antt =====
-- The configuration of an application (app.go) and of its instances (appinstance.go).
--
-- Of a handler or a callback the model keeps whether it is set; what the callbacks do is the
-- application's. Durations and the transport are carried along.
use Prim.Native.String.{◌++◌}
use cloud_sdk_go.Base.{
  String, Bool, false, ◌||◌, List, [], ◌∷◌, map, ℤ, message, Result, ok, ◌>>◌, fail_if, is_empty,
  if◌then◌else◌,
}
use cloud_sdk_go.App.Text.{trim_space}

-- Which of the optional functions are set.
pub record Handlers : Type 0 where
  pub device_activation : Bool
  pub device_deactivation : Bool
  pub tenant_unlinked : Bool
  pub device_message : Bool
  pub read_stream_gap : Bool

pub record Config : Type 0 where
  pub id : String
  pub regional_fqdn : String
  pub regional_fqdns : List String
  pub global_fqdn : String
  pub read_stream_id : String
  pub write_stream_id : String
  pub group_id : String
  pub has_transport : Bool
  pub has_get_credentials : Bool
  pub api_key : String
  pub handlers : Handlers
  pub status_log_interval : ℤ
  pub log_each_message : Bool

-- The assignments at the head of `validateConfig`.
unfoldable pub sanitize : Config → Config
sanitize c = record c {
  id = trim_space c.id;
  regional_fqdns = elim c.regional_fqdns [
    | [] ↦ trim_space c.regional_fqdn ∷ []
    | fqdn ∷ rest ↦ trim_space fqdn ∷ map trim_space rest
  ];
  global_fqdn = trim_space c.global_fqdn;
  read_stream_id = trim_space c.read_stream_id;
  write_stream_id = trim_space c.write_stream_id;
  group_id = trim_space c.group_id;
}

unfoldable pub any_empty : List String → Bool
any_empty [] = false
any_empty (s ∷ rest) = is_empty s || any_empty rest

-- The tests of `validateConfig`, in their order.
unfoldable pub check_config : Config → Result (Unit {0})
unfolding any_empty
check_config c = do
  fail_if (is_empty c.id) (message "ID must not be empty")
  fail_if (any_empty c.regional_fqdns) (message "RegionalFQDN must not be empty")
  fail_if (is_empty c.global_fqdn) (message "GlobalFQDN must not be empty")
  fail_if (is_empty c.read_stream_id || is_empty c.write_stream_id)
      (message "ReadStreamID and WriteStreamID must not be empty")

-- `xid` is the fresh id that is used where no group is given.
unfoldable pub validate_config : String → Config → Result Config
unfolding check_config
validate_config xid config = do
  let c : Config = sanitize config
  check_config c
  ok (record c { group_id = if is_empty c.group_id then xid else c.group_id })

-- `newAppConfig`: the configuration of an instance, with the parent's current logging flag.
unfoldable pub new_app_config : Config → Bool → String → String → Config
new_app_config parent log_each_message app_id app_api_key = record {
  id = app_id;
  global_fqdn = parent.global_fqdn;
  regional_fqdn = parent.regional_fqdn;
  regional_fqdns = parent.regional_fqdns;
  read_stream_id = "app--" ++ app_id ++ "-R";
  write_stream_id = "app--" ++ app_id ++ "-W";
  group_id = parent.group_id;
  has_transport = parent.has_transport;
  has_get_credentials = false;
  api_key = app_api_key;
  handlers = parent.handlers;
  status_log_interval = parent.status_log_interval;
  log_each_message = log_each_message;
}
