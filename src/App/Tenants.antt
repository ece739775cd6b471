-- ===== src/App/Tenants.antt =====
-- Tenants and devices (tenant.go, device.go) and the maps in which the application keeps them.
--
-- HTTP requests go through resty, which is not part of the repository: the reply to a request is
-- an argument of the operation that makes it.
use cloud_sdk_go.Base.{
  ℕ, String, Bool, Option, none, some, List, [], ◌∷◌, Dict, lookup, Failure, message, Result, ok,
  err, ◌>>=◌, is_empty, if◌then◌else◌,
}

pub record Tenant : Type 0 where
  pub id : String
  pub name : String
  pub api_token : String

pub record Device : Type 0 where
  pub id : String
  pub kind : String
  pub name : String
  pub region : String
  pub status : String
  pub tenant : Tenant
  pub fqdn : String

-- `getDeviceResponse`, with its nested objects flattened.
pub record DeviceResponse : Type 0 where
  pub id : String
  pub kind : String
  pub name : String
  pub region : String
  pub fqdn : String
  pub enrollment_status : String

pub record ErrorResponse : Type 0 where
  pub error : String
  pub text : String

unfoldable pub get_error : ErrorResponse → String
get_error e = if is_empty e.error then e.text else e.error

-- The reply to a request: a transport error, an error status with its body, or a result.
pub data Reply {ℓ} (A : Type ℓ) : Type ℓ where
  failed : Failure → Reply A
  error_status : ℕ → ErrorResponse → Reply A
  success : A → Reply A

-- The two tests after a request whose error is the body's text.
unfoldable pub reply_result {ℓ} : {A : Type ℓ} → Reply A → Result A
unfolding get_error
reply_result (failed e) = err e
reply_result (error_status code e) = err (message (get_error e))
reply_result (success a) = ok a

-- `tenantMap`, `deviceMap`, and whether the once-only start of the connection has run.
pub record Registry : Type 0 where
  pub tenants : Dict Tenant
  pub devices : Dict (Dict Device)
  pub connecting : Bool

unfoldable pub to_device : Tenant → DeviceResponse → Device
to_device t d = record {
  id = d.id;
  kind = d.kind;
  name = d.name;
  region = d.region;
  status = d.enrollment_status;
  tenant = t;
  fqdn = d.fqdn;
}

unfoldable pub to_devices : Tenant → List DeviceResponse → List Device
unfolding to_device
to_devices t [] = []
to_devices t (d ∷ ds) = to_device t d ∷ to_devices t ds

-- `getDevices`
unfoldable pub fetch_devices : Tenant → Reply (List DeviceResponse) → Result (List Device)
unfolding reply_result to_devices
fetch_devices t reply = reply_result reply >>= λ ds. ok (to_devices t ds)

-- `getDeviceByID`
unfoldable pub get_device_by_id : Tenant → Reply DeviceResponse → Result Device
unfolding reply_result to_device
get_device_by_id t reply = reply_result reply >>= λ d. ok (to_device t d)

unfoldable pub values : Dict Device → List Device
values [] = []
values ((id, d) ∷ rest) = d ∷ values rest

unfoldable pub get_devices : Tenant → Registry → Result (List Device)
unfolding values
get_devices t r = elim (lookup t.id r.devices) [
  | none ↦ err (message "invalid tenant id")
  | some device_map ↦ ok (values device_map)
]

unfoldable pub device_of : Option Device → Result Device
device_of none = err (message "invalid deviceId")
device_of (some d) = ok d

unfoldable pub get_device : Tenant → String → Registry → Result Device
unfolding device_of
get_device t device_id r = elim (lookup t.id r.devices) [
  | none ↦ err (message "invalid deviceId")
  | some device_map ↦ device_of (lookup device_id device_map)
]

-- `Status` of a device: the enrollment status that the cloud reports.
unfoldable pub device_status : Reply DeviceResponse → Result String
unfolding reply_result
device_status reply = reply_result reply >>= λ d. ok d.enrollment_status
