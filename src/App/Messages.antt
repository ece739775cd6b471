-- ===== src/App/Messages.antt =====
-- Messages on the read stream (app.go).
--
-- The callbacks that a handler makes are returned as effects. `fetch` is the cloud's reply to a
-- request for a device, and `decode` the JSON decoder of control messages.
use cloud_sdk_go.Base.{
  String, Bool, true, false, Option, none, some, List, [], ◌∷◌, ◌++◌, Dict, lookup, insert, erase,
  Failure, message, because, Result, ok, err, str_eq, is_empty, if◌then◌else◌,
}
use cloud_sdk_go.App.Config.{Handlers}
use cloud_sdk_go.App.Tenants.{Tenant, Device, DeviceResponse, Reply, Registry, get_device_by_id}

pub record ControlPayload : Type 0 where
  pub kind : String
  pub tenant : String
  pub device : String
  pub streams : List String

pub record Message : Type 0 where
  pub error : Option Failure
  pub id : String
  pub headers : Dict String
  pub payload : String

-- A callback of the application.
pub data Effect : Type 0 where
  activated deactivated : Device → Effect
  unlinked : Tenant → Effect
  received : (message_id : String) → Device → (stream payload : String) → Effect

-- `headers[key]`, empty if it is missing.
abbrev pub header : String → Dict String → String
header key headers = elim (lookup key headers) [ none ↦ "" | some v ↦ v ]

abbrev pub Handled : Type 0
Handled = Registry × List Effect × Result (Unit {0})

abbrev pub when : Bool → Effect → List Effect
when true e = e ∷ []
when false e = []

-- The error of a handler is only logged.
abbrev pub logged : Handled → Registry × List Effect
logged (r, effects, result) = (r, effects)

abbrev pub refused : String → Registry → Handled
refused text r = (r, [], err (message text))

-- The device map of a tenant, replaced.
abbrev pub with_devices : Tenant → String → Dict Device → Registry → Registry
with_devices tenant key m r = record r { devices = insert key m r.devices }

module _ (handlers : Handlers) (fetch : Tenant → String → Reply DeviceResponse) where
  open handlers use {device_activation, device_deactivation, tenant_unlinked, device_message}

  unfoldable pub on_activate : Tenant → ControlPayload → Dict Device → Registry → Handled
  on_activate tenant p m r = elim (get_device_by_id tenant (fetch tenant p.device)) [
    | err e ↦ (r, [], err (because "failed to get device info" e))
    | ok d ↦ (
      with_devices tenant p.tenant (insert d.id d m) r,
      when device_activation (activated d),
      ok tt,
    )
  ]

  unfoldable pub on_deactivate : Tenant → ControlPayload → Dict Device → Registry → Handled
  on_deactivate tenant p m r = elim (lookup p.device m) [
    | some d ↦ (
      with_devices tenant p.tenant (erase p.device m) r,
      when device_deactivation (deactivated d),
      ok tt,
    )
    | none ↦ elim (get_device_by_id tenant (fetch tenant p.device)) [
      | err e ↦ (r, [], err (because "failed to get device info" e))
      | ok d ↦ (r, when device_deactivation (deactivated d), ok tt)
    ]
  ]

  unfoldable pub on_disconnect : Tenant → ControlPayload → Registry → Handled
  on_disconnect tenant p r = (
    record r { tenants = erase p.tenant r.tenants; devices = erase p.tenant r.devices },
    when tenant_unlinked (unlinked tenant),
    ok tt,
  )

  -- The chain of tests of the message's type.
  unfoldable pub on_control : Tenant → ControlPayload → Dict Device → Registry → Handled
  unfolding on_activate on_deactivate on_disconnect
  on_control tenant p m r =
      if str_eq p.kind "device:activate"
      then on_activate tenant p m r
      else if str_eq p.kind "device:deactivate"
      then on_deactivate tenant p m r
      else if str_eq p.kind "app:connect"
      then (r, [], ok tt)
      else if str_eq p.kind "app:disconnect"
      then on_disconnect tenant p r
      else (r, [], err (because "unknown control message type" (message p.kind)))

  unfoldable pub control_msg_handler : Result ControlPayload → Registry → Handled
  control_msg_handler (err e) r = (r, [], err (because "failed to unmarshal control payload" e))
  control_msg_handler (ok p) r = elim (lookup p.tenant r.tenants) [
    | none ↦ (r, [], ok tt)
    | some tenant ↦ elim (lookup p.tenant r.devices) [
      | none ↦ refused "missing device map for tenant" r
      | some m ↦ on_control tenant p m r
    ]
  ]

  -- `invokeDeviceMessageHandler` passes on the protocol's message id.
  unfoldable pub deliver : Dict String → Device → String → List Effect
  deliver headers d payload =
      when device_message
        (received (header "messageID" headers) d (header "stream" headers) payload)

  unfoldable pub on_data : Tenant → Dict String → String → Dict Device → Registry → Handled
  unfolding deliver
  on_data tenant headers payload m r = elim (lookup (header "device" headers) m) [
    | some d ↦ (r, deliver headers d payload, ok tt)
    | none ↦ elim (get_device_by_id tenant (fetch tenant (header "device" headers))) [
      | err e ↦ (r, [], err (because "failed to get device info" e))
      | ok d ↦ (
        with_devices tenant (header "tenant" headers) (insert d.id d m) r,
        deliver headers d payload,
        ok tt,
      )
    ]
  ]

  unfoldable pub data_msg_handler : Dict String → String → Registry → Handled
  data_msg_handler headers payload r =
      let tenant_id = header "tenant" headers in
      if is_empty tenant_id
      then refused "data missing tenant id" r
      else if is_empty (header "device" headers)
      then refused "data missing device id" r
      else elim (lookup tenant_id r.tenants) [
        | none ↦ (r, [], ok tt)
        | some tenant ↦ elim (lookup tenant_id r.devices) [
          | none ↦ refused "missing device map for tenant" r
          | some m ↦ on_data tenant headers payload m r
        ]
      ]

  module _ (decode : String → Result ControlPayload) where
    -- The callback of the read stream: errors of the handlers are logged.
    unfoldable pub read_stream_handler : Message → Registry → Registry × List Effect
    read_stream_handler msg r = elim msg.error [
      | some e ↦ (r, [])
      | none ↦
          let kind = header "messageType" msg.headers in
          if str_eq kind "control"
          then logged (control_msg_handler (decode msg.payload) r)
          else if str_eq kind "data"
          then logged (data_msg_handler msg.headers msg.payload r)
          else (r, [])
    ]

    -- The messages of a stream, one after the other.
    unfoldable pub read_stream : List Message → Registry → Registry × List Effect
    read_stream [] r = (r, [])
    read_stream (msg ∷ msgs) r =
        let (r', effects) = read_stream_handler msg r in
        let (r'', more) = read_stream msgs r' in (r'', effects ++ more)
