-- ===== src/App/Validation.antt =====
-- What a validated configuration promises.
use Prim.Native.String.{◌++◌}
use Prim.Native.String.append
use cloud_sdk_go.Base.{◌≡◌, refl, ◌≢◌, String, Bool, false, List, [], ◌∷◌, map, arith, ok, is_empty}
use cloud_sdk_go.App.Text.{is_space, trim_space, trim_space_idem, trim_space-filled}
use cloud_sdk_go.App.Config.{Config, sanitize, any_empty, validate_config, new_app_config}

-- What `New` relies on.
pub record IsUsable (c : Config) : Type 0 where
  pub has_id : is_empty c.id ≡ false
  pub some_region : c.regional_fqdns ≢ []
  pub regions_named : any_empty c.regional_fqdns ≡ false
  pub has_global : is_empty c.global_fqdn ≡ false
  pub has_read_stream : is_empty c.read_stream_id ≡ false
  pub has_write_stream : is_empty c.write_stream_id ≡ false
  pub has_group : is_empty c.group_id ≡ false

-- A configuration that is accepted has an id, a region, no unnamed region, a global host, both
-- streams and a group, given that the generated group id is not empty.
pub validate_config-IsUsable :
    (xid : String) (config result : Config)
    → is_empty xid ≡ false
    → validate_config xid config ≡ ok result
    → IsUsable result
unfolding validate_config sanitize
validate_config-IsUsable xid config result x e = ground arith

map-trim_idem : (xs : List String) → map trim_space (map trim_space xs) ≡ map trim_space xs
map-trim_idem [] = refl
map-trim_idem (x ∷ xs) = cc (trim_space_idem x, map-trim_idem xs)

-- The texts are trimmed, and there is a region.
record IsClean (c : Config) : Type 0 where
  id : trim_space c.id ≡ c.id
  regions : map trim_space c.regional_fqdns ≡ c.regional_fqdns
  some_region : c.regional_fqdns ≢ []
  global : trim_space c.global_fqdn ≡ c.global_fqdn
  read : trim_space c.read_stream_id ≡ c.read_stream_id
  write : trim_space c.write_stream_id ≡ c.write_stream_id
  group : trim_space c.group_id ≡ c.group_id

sanitize-IsClean : (c : Config) → IsClean (sanitize c)
unfolding sanitize
sanitize-IsClean c = ground (
  arith,
  trim_space_idem c.id,
  trim_space_idem c.regional_fqdn,
  trim_space_idem c.global_fqdn,
  trim_space_idem c.read_stream_id,
  trim_space_idem c.write_stream_id,
  trim_space_idem c.group_id,
  map-trim_idem c.regional_fqdns,
)

validate_config-IsClean :
    (xid : String) (config result : Config)
    → trim_space xid ≡ xid
    → validate_config xid config ≡ ok result
    → IsClean result
unfolding validate_config
validate_config-IsClean xid config result x e = ground (arith, sanitize-IsClean config)

sanitize_self : (c : Config) → IsClean c → sanitize c ≡ c
unfolding sanitize
sanitize_self c k = ground arith

revalidate : (xid : String) (c : Config) → IsClean c → IsUsable c → validate_config xid c ≡ ok c
unfolding validate_config
revalidate xid c k u = rw (sanitize_self c k) (ground arith)

-- Validation settles: what it accepts, it accepts again unchanged, whatever id is generated then,
-- given that the id that was generated first is not empty and has no white space at its ends.
pub validate_config_idem :
    (xid xid' : String) (config result : Config)
    → trim_space xid ≡ xid
    → is_empty xid ≡ false
    → validate_config xid config ≡ ok result
    → validate_config xid' result ≡ ok result
validate_config_idem xid xid' config result t x e =
    revalidate xid' result (validate_config-IsClean xid config result t e)
      (validate_config-IsUsable xid config result x e)

app_stream-filled : (s : String) → is_empty (trim_space ("app--" ++ s)) ≡ false
unfolding is_space
app_stream-filled s = rw append.cons (trim_space-filled _ ("pp--" ++ s) refl)

-- The configuration that is accepted for an instance.
pub accepted_child :
    (xid xid' : String) (config parent : Config) (log_each : Bool) (app_id key : String)
    → trim_space xid ≡ xid
    → is_empty xid ≡ false
    → validate_config xid config ≡ ok parent
    → is_empty (trim_space app_id) ≡ false
    → (child : Config) × (validate_config xid' (new_app_config parent log_each app_id key)
        ≡ ok child)
      × (child.id ≡ trim_space app_id)
      × (child.api_key ≡ key)
      × (child.regional_fqdns ≡ parent.regional_fqdns)
      × (child.group_id ≡ parent.group_id)
      × (child.handlers ≡ parent.handlers)
      × (child.log_each_message ≡ log_each)
unfolding validate_config new_app_config sanitize
accepted_child xid xid' config parent log_each app_id key t x e a =
    let k = validate_config-IsClean xid config parent t e in
    let u = validate_config-IsUsable xid config parent x e in
    let child : Config = new_app_config parent log_each app_id key in
    let f = app_stream-filled (app_id ++ "-R") in
    let g = app_stream-filled (app_id ++ "-W") in
    (sanitize child, ground (arith, f, g), refl, refl, ground arith, ground arith, refl, refl)

-- An application that is validated can configure instances: whatever visible id and key the cloud
-- assigns to the instance, its configuration is accepted, given that the group id that was
-- generated for the application is not empty and has no white space at its ends.
pub new_app_config-accepted :
    (xid xid' : String) (config parent : Config) (log_each : Bool) (app_id key : String)
    → trim_space xid ≡ xid
    → is_empty xid ≡ false
    → validate_config xid config ≡ ok parent
    → is_empty (trim_space app_id) ≡ false
    → (child : Config) × (validate_config xid' (new_app_config parent log_each app_id key)
        ≡ ok child)
new_app_config-accepted xid xid' config parent log_each app_id key t x e a =
    let c = accepted_child xid xid' config parent log_each app_id key t x e a in (c.0, c.1)
