-- ===== src/App/Delivery.antt =====
-- The read stream as a whole: the maps stay sound, and callbacks are for linked tenants.
use cloud_sdk_go.Base.{
  ◌≡◌, refl, ap, ◌∙◌, ◌≢◌, inl, inr, String, none, List, [], ◌∷◌, All, All-append, Dict, lookup,
  erase, lookup-erase, eq_refl, str_eq, Bool-cases, Option-cases, Result, ok, err, is_empty,
}
use cloud_sdk_go.App.Config.{Handlers}
use cloud_sdk_go.App.Tenants.{Tenant, DeviceResponse, Reply, Registry}
use cloud_sdk_go.App.Linking.{unlink_tenant}
use cloud_sdk_go.App.Messages.{
  ControlPayload, Message, Effect, header, logged, control_msg_handler, data_msg_handler,
  read_stream_handler, read_stream,
}
use cloud_sdk_go.App.Registry.{IsSound, tenant_of, erase-IsSound}
use cloud_sdk_go.App.Callbacks.{IsGood, same-IsGood, on_control-IsGood, on_data-IsGood}

module _ (handlers : Handlers) (fetch : Tenant → String → Reply DeviceResponse)
    (decode : String → Result ControlPayload) where
  control_msg_handler-IsGood :
      (p : Result ControlPayload) (r : Registry)
      → IsSound r
      → IsGood r (logged (control_msg_handler handlers fetch p r))
  unfolding control_msg_handler
  control_msg_handler-IsGood (err e) r s = same-IsGood r s
  control_msg_handler-IsGood (ok p) r s = elim (Option-cases (lookup p.tenant r.tenants)) [
    | inl a ↦ rw (a, control_msg_handler) (same-IsGood r s)
    | inr (t, a) ↦ elim (Option-cases (lookup p.tenant r.devices)) [
      | inl b ↦ rw (a, control_msg_handler, b) (same-IsGood r s)
      | inr (m, b) ↦
          rw (a, control_msg_handler, b)
            (on_control-IsGood handlers fetch r s p.tenant t m a b p refl)
    ]
  ]

  data_msg_handler-IsGood :
      (headers : Dict String) (payload : String) (r : Registry)
      → IsSound r
      → IsGood r (logged (data_msg_handler handlers fetch headers payload r))
  unfolding data_msg_handler
  data_msg_handler-IsGood headers payload r s =
      let key = header "tenant" headers in
      elim (Bool-cases (is_empty key)) [
        | inl x ↦ rw x (same-IsGood r s)
        | inr x ↦ elim (Bool-cases (is_empty (header "device" headers))) [
          | inl y ↦ rw (x, y) (same-IsGood r s)
          | inr y ↦ elim (Option-cases (lookup key r.tenants)) [
            | inl a ↦ rw (x, y, a, data_msg_handler) (same-IsGood r s)
            | inr (t, a) ↦ elim (Option-cases (lookup key r.devices)) [
              | inl b ↦ rw (x, y, a, data_msg_handler, b) (same-IsGood r s)
              | inr (m, b) ↦
                  rw (x, y, a, data_msg_handler, b)
                    (on_data-IsGood handlers fetch r s key t m a b headers payload refl)
            ]
          ]
        ]
      ]

  pub read_stream_handler-IsGood :
      (msg : Message) (r : Registry)
      → IsSound r
      → IsGood r (read_stream_handler handlers fetch decode msg r)
  unfolding read_stream_handler
  read_stream_handler-IsGood msg r s = elim (Option-cases msg.error) [
    | inr (e, q) ↦ rw (q, read_stream_handler) (same-IsGood r s)
    | inl q ↦
        let kind = header "messageType" msg.headers in
        elim (Bool-cases (str_eq kind "control")) [
          | inl c ↦
              rw (q, read_stream_handler, c) (control_msg_handler-IsGood (decode msg.payload) r s)
          | inr c ↦ elim (Bool-cases (str_eq kind "data")) [
            | inl d ↦
                rw (q, read_stream_handler, c, d)
                  (data_msg_handler-IsGood msg.headers msg.payload r s)
            | inr d ↦ rw (q, read_stream_handler, c, d) (same-IsGood r s)
          ]
        ]
  ]

  All-weaken :
      {P Q : Effect → Type 0} (xs : List Effect) → ((e : Effect) → P e → Q e) → All P xs → All Q xs
  All-weaken [] f a = tt
  All-weaken (x ∷ xs) f a = (f x a.0, All-weaken xs f a.1)

  -- On sound maps, any messages leave the maps sound and add no tenant, and every callback that
  -- they cause concerns a tenant that was linked before them.
  pub read_stream-IsGood :
      (msgs : List Message) (r : Registry)
      → IsSound r
      → IsGood r (read_stream handlers fetch decode msgs r)
  unfolding read_stream
  read_stream-IsGood [] r s = same-IsGood r s
  read_stream-IsGood (msg ∷ msgs) r s =
      let first = read_stream_handler-IsGood msg r s in
      let step = read_stream_handler handlers fetch decode msg r in
      let rest = read_stream-IsGood msgs step.0 first.sound in
      record {
        sound = rest.sound;
        none_added = λ k n. rest.none_added k (first.none_added k n);
        linked =
            All-append (λ e. lookup (tenant_of e) r.tenants ≢ none) step.1
              (read_stream handlers fetch decode msgs step.0).1 first.linked
              (All-weaken (read_stream handlers fetch decode msgs step.0).1
                (λ e linked n. linked (first.none_added (tenant_of e) n)) rest.linked);
      }

  -- On sound maps, once a tenant is unlinked no message causes a callback about it, whatever the
  -- reply of the cloud to the request that unlinks it.
  pub unlink_tenant-silent :
      (t : Tenant) (reply : Reply (Unit {0})) (msgs : List Message) (r : Registry)
      → IsSound r
      → All
          (λ e. tenant_of e ≢ t.id)
          (read_stream handlers fetch decode msgs (unlink_tenant t reply r).0).1
  unfolding unlink_tenant
  unlink_tenant-silent t reply msgs r s =
      let r' : Registry = record r {
        tenants = erase t.id r.tenants;
        devices = erase t.id r.devices;
      } in
      let gone : lookup t.id r'.tenants ≡ none =
        rw (lookup-erase t.id t.id r.tenants, eq_refl t.id) refl in
      All-weaken (read_stream handlers fetch decode msgs r').1
        (λ e linked same. linked (ap (λ k. lookup k r'.tenants) same ∙ gone))
        (read_stream-IsGood msgs r' (erase-IsSound t.id r s)).linked
