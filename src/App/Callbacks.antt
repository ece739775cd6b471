-- ===== src/App/Callbacks.antt =====
-- What a message does to the maps, and whom its callbacks concern.
use cloud_sdk_go.Base.{
  ◌≡◌, ◌∙◌, ap, ◌≢◌, inl, inr, String, Bool, true, false, none, some, List, [], All, arith, Dict,
  lookup, insert, erase, lookup-erase, str_eq, Bool-cases, Option-cases, Result-cases, ok,
}
use cloud_sdk_go.App.Config.{Handlers}
use cloud_sdk_go.App.Tenants.{Tenant, Device, DeviceResponse, Reply, Registry, get_device_by_id}
use cloud_sdk_go.App.Messages.{
  ControlPayload, Effect, activated, deactivated, unlinked, received, header, Handled, when,
  deliver, with_devices, on_activate, on_deactivate, on_disconnect, on_control, on_data,
}
use cloud_sdk_go.App.Registry.{
  IsSound, IsKeyed, tenant_of, insert-IsKeyed, erase-IsKeyed, devices-IsSound, erase-IsSound,
}

-- After a message from `r`: the maps are sound, no tenant is added, and the callbacks concern
-- tenants that were linked.
pub record IsGood (r : Registry) (after : Registry × List Effect) : Type 0 where
  pub sound : IsSound after.0
  pub none_added : (k : String) → lookup k r.tenants ≡ none → lookup k after.0.tenants ≡ none
  pub linked : All (λ e. lookup (tenant_of e) r.tenants ≢ none) after.1

abbrev outcome : Handled → Registry × List Effect
outcome h = (h.0, h.1)

pub fetched-Fits :
    (t : Tenant) (reply : Reply DeviceResponse) {d : Device}
    → get_device_by_id t reply ≡ ok d
    → d.tenant.id ≡ t.id
unfolding get_device_by_id
fetched-Fits t reply e = ground arith

erase-none : (k j : String) (m : Dict Tenant) → lookup k m ≡ none → lookup k (erase j m) ≡ none
erase-none k j m e = rw (lookup-erase k j m) (ground arith)

-- Nothing happened.
pub same-IsGood : (r : Registry) → IsSound r → IsGood r (r, [])
same-IsGood r s = record { sound = s; none_added = λ k e. e; linked = tt }

module _ (handlers : Handlers) (fetch : Tenant → String → Reply DeviceResponse) (r : Registry)
    (s : IsSound r) (key : String) (t : Tenant) (m : Dict Device)
    (has_tenant : lookup key r.tenants ≡ some t) (has_map : lookup key r.devices ≡ some m) where
  agrees : (t.id ≡ key) × IsKeyed key m
  agrees = rw (has_tenant, has_map) at (s key)

  -- A callback about the tenant of the message.
  about : (id : String) → id ≡ key → lookup id r.tenants ≢ none
  about id e n = cc (ap (λ k. lookup k r.tenants) e)

  stored-IsGood :
      (m' : Dict Device) (es : List Effect)
      → IsKeyed key m'
      → All (λ e. lookup (tenant_of e) r.tenants ≢ none) es
      → IsGood r (with_devices t key m' r, es)
  stored-IsGood m' es h l = record {
    sound = devices-IsSound t key m' r has_tenant agrees.0 h s;
    none_added = λ k e. e;
    linked = l;
  }

  -- One callback, if its handler is set.
  when-linked :
      (b : Bool) (e : Effect)
      → tenant_of e ≡ key
      → All (λ e. lookup (tenant_of e) r.tenants ≢ none) (when b e)
  when-linked true e i = (about (tenant_of e) i, tt)
  when-linked false e i = tt

  on_activate-IsGood :
      (p : ControlPayload)
      → p.tenant ≡ key
      → IsGood r (outcome (on_activate handlers fetch t p m r))
  unfolding on_activate
  on_activate-IsGood p e = elim (Result-cases (get_device_by_id t (fetch t p.device))) [
    | inr (x, q) ↦ rw (q, on_activate) (same-IsGood r s)
    | inl (d, q) ↦
        let i = fetched-Fits t (fetch t p.device) q ∙ agrees.0 in
        rw (q, on_activate, e)
          (stored-IsGood (insert d.id d m) (when handlers.device_activation (activated d))
            (insert-IsKeyed key d m i agrees.1)
            (when-linked handlers.device_activation (activated d) i))
  ]

  on_deactivate-IsGood :
      (p : ControlPayload)
      → p.tenant ≡ key
      → IsGood r (outcome (on_deactivate handlers fetch t p m r))
  unfolding on_deactivate
  on_deactivate-IsGood p e = elim (Option-cases (lookup p.device m)) [
    | inr (d, q) ↦
        let f = rw q at (agrees.1 p.device) in
        rw (q, on_deactivate, e)
          (stored-IsGood (erase p.device m) (when handlers.device_deactivation (deactivated d))
            (erase-IsKeyed key p.device m agrees.1)
            (when-linked handlers.device_deactivation (deactivated d) f.1))
    | inl q ↦ elim (Result-cases (get_device_by_id t (fetch t p.device))) [
      | inr (x, u) ↦ rw (q, on_deactivate, u) (same-IsGood r s)
      | inl (d, u) ↦
          let i = fetched-Fits t (fetch t p.device) u ∙ agrees.0 in
          rw (q, on_deactivate, u)
            (record {
              sound = s;
              none_added = λ k e. e;
              linked = when-linked handlers.device_deactivation (deactivated d) i;
            })
    ]
  ]

  on_disconnect-IsGood :
      (p : ControlPayload)
      → p.tenant ≡ key
      → IsGood r (outcome (on_disconnect handlers fetch t p r))
  unfolding on_disconnect
  on_disconnect-IsGood p e = record {
    sound = erase-IsSound p.tenant r s;
    none_added = λ k n. erase-none k p.tenant r.tenants n;
    linked = when-linked handlers.tenant_unlinked (unlinked t) agrees.0;
  }

  pub on_control-IsGood :
      (p : ControlPayload) → p.tenant ≡ key → IsGood r (outcome (on_control handlers fetch t p m r))
  unfolding on_control
  on_control-IsGood p e = elim (Bool-cases (str_eq p.kind "device:activate")) [
    | inl a ↦ rw a (on_activate-IsGood p e)
    | inr a ↦ elim (Bool-cases (str_eq p.kind "device:deactivate")) [
      | inl b ↦ rw (a, b) (on_deactivate-IsGood p e)
      | inr b ↦ elim (Bool-cases (str_eq p.kind "app:connect")) [
        | inl c ↦ rw (a, b, c) (same-IsGood r s)
        | inr c ↦ elim (Bool-cases (str_eq p.kind "app:disconnect")) [
          | inl d ↦ rw (a, b, c, d) (on_disconnect-IsGood p e)
          | inr d ↦ rw (a, b, c, d) (same-IsGood r s)
        ]
      ]
    ]
  ]

  pub on_data-IsGood :
      (headers : Dict String) (payload : String)
      → header "tenant" headers ≡ key
      → IsGood r (outcome (on_data handlers fetch t headers payload m r))
  unfolding on_data
  on_data-IsGood headers payload e =
      let device_id = header "device" headers in
      elim (Option-cases (lookup device_id m)) [
        | inr (d, q) ↦
            let f = rw q at (agrees.1 device_id) in
            rw (q, on_data)
              (record {
                sound = s;
                none_added = λ k e. e;
                linked =
                    when-linked handlers.device_message
                      (received (header "messageID" headers) d (header "stream" headers) payload)
                      f.1;
              })
        | inl q ↦ elim (Result-cases (get_device_by_id t (fetch t device_id))) [
          | inr (x, u) ↦ rw (q, on_data, u) (same-IsGood r s)
          | inl (d, u) ↦
              let i = fetched-Fits t (fetch t device_id) u ∙ agrees.0 in
              rw (q, on_data, u, e)
                (stored-IsGood (insert d.id d m) (deliver handlers fetch headers d payload)
                  (insert-IsKeyed key d m i agrees.1)
                  (when-linked handlers.device_message
                    (received (header "messageID" headers) d (header "stream" headers) payload) i))
        ]
      ]
