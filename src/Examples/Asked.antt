-- ===== src/Examples/Asked.antt =====
-- What the echo query asks for, from its configuration file to its request.
use cloud_sdk_go.Base.{
  ◌≡◌, refl, sym, ◌≢◌, inl, inr, ap, ◌∙◌, String, false, List, [], ok, is_empty, arith,
  Result-cases, Bool-cases, subst, if◌then◌else◌,
}
use cloud_sdk_go.App.Config.{Config, validate_config, sanitize}
use cloud_sdk_go.App.Tenants.{Tenant, Device, Registry}
use cloud_sdk_go.App.Linking.{is_nil}
use cloud_sdk_go.App.Start.{App, new_app}
use cloud_sdk_go.App.Children.{new_app-validates}
use cloud_sdk_go.Examples.Files.{Files, Ending, crashes, exits, continues, load_config, not_crashed}
use cloud_sdk_go.Examples.Consumer.{Replies, open_tenant}
use cloud_sdk_go.Examples.Echo.{
  EchoConfig, echo_sdk_config, shared_fqdns, Streams, open_streams, select_device, echo_request,
  run_echo,
}
use cloud_sdk_go.Examples.Selection.{times, select_device-configured}

-- The regions of a validated configuration are there if they were in the file.
regions_kept :
    (xid : String) (config : Config) (app : App)
    → new_app xid config ≡ ok app
    → is_nil config.regional_fqdns ≡ false
    → is_nil app.config.regional_fqdns ≡ false
unfolding validate_config sanitize
regions_kept xid config app made some_region = ground (arith, new_app-validates xid config app made)

streams_opened :
    (s : Streams) (e : Ending Device) (d : Device)
    → open_streams s e ≡ continues d
    → e ≡ continues d
unfolding open_streams
streams_opened s crashes d q = absurd (ground arith)
streams_opened s (exits status) d q = absurd (ground arith)
streams_opened s (continues x) d q = ground arith

default_filled :
    (s d : String) → is_empty d ≡ false → is_empty (if is_empty s then d else s) ≡ false
default_filled s d h = elim (Bool-cases (is_empty s)) [
  | inl e ↦ ap (λ c. is_empty (if c then d else s)) e ∙ h
  | inr e ↦ ap (λ c. is_empty (if c then d else s)) e ∙ e
]

abbrev payload : {A : Type 0} → A → Ending A → A
payload a crashes = a
payload a (exits status) = a
payload a (continues b) = b

-- The last part of a run that goes on.
after_select :
    (method url : String) (e : Ending Device) (d : Device) (request : String × String)
    → ◌≡◌ {A = Ending (Device × (String × String))}
        (elim e [
          | crashes ↦ crashes
          | exits status ↦ exits status
          | continues device ↦ continues (device, echo_request method url)
        ])
        (continues (d, request))
    → (e ≡ continues d) × (echo_request method url ≡ request)
after_select method url crashes d request q = absurd (ground arith)
after_select method url (exits status) d request q = absurd (ground arith)
after_select method url (continues x) d request q =
    let p = ap (payload (x, echo_request method url)) q in
    (ap (λ y. continues y.0) p, ap (λ y. y.1) p)

-- The same from the tenant on.
after_tenant :
    (method url : String) (streams : Streams) (fqdns : List String) (r : Registry)
    (e : Ending Tenant) (d : Device) (request : String × String)
    → ◌≡◌ {A = Ending (Device × (String × String))}
        (elim e [
          | crashes ↦ crashes
          | exits status ↦ exits status
          | continues t ↦ elim (open_streams streams (select_device fqdns "" t r)) [
            | crashes ↦ crashes
            | exits status ↦ exits status
            | continues device ↦ continues (device, echo_request method url)
          ]
        ])
        (continues (d, request))
    → (t : Tenant) × (select_device fqdns "" t r ≡ continues d)
      × (echo_request method url ≡ request)
after_tenant method url streams fqdns r crashes d request q = absurd (ground arith)
after_tenant method url streams fqdns r (exits status) d request q = absurd (ground arith)
after_tenant method url streams fqdns r (continues t) d request q =
    let (opened, asked) =
      after_select method url (open_streams streams (select_device fqdns "" t r)) d request q in
    (t, streams_opened streams (select_device fqdns "" t r) d opened, asked)

-- A run of the echo query that comes to its query asks a device in a region of the validated
-- configuration, with a method and a path that are not empty, when the configuration file lists
-- regions.
pub run_echo-Asks :
    {D : Type 0} (files : Files D EchoConfig) (path xid method url : String) (replies : Replies)
    (streams : Streams) (d d' : D) (c : EchoConfig) (device : Device) (request : String × String)
    → load_config files path d ≡ ok c
    → is_nil c.app.regional_fqdns ≡ false
    → run_echo files path xid method url replies streams d ≡ (d', continues (device, request))
    → (app : App) × (new_app xid (echo_sdk_config c.app) ≡ ok app)
      × (times device.fqdn app.config.regional_fqdns ≢ 0)
      × (is_empty request.0 ≡ false)
      × (is_empty request.1 ≡ false)
unfolding run_echo echo_request
run_echo-Asks files path xid method url replies streams d d' c device request loads regions e =
    elim (Result-cases (new_app xid (echo_sdk_config c.app))) [
      | inr (x, n) ↦ absurd (not_crashed (rw (run_echo, loads, n) at e))
      | inl (app, n) ↦
          let (r, ending) = open_tenant app.config replies c.tenant in
          let (t, selected, asked) =
            after_tenant method url streams (shared_fqdns c.app app) r ending device request
              (ap (λ p. p.1) (rw (run_echo, loads, n) at e)) in
          let shared : shared_fqdns c.app app ≡ app.config.regional_fqdns =
            ap (λ b. if b then [] else app.config.regional_fqdns) regions in
          let kept = regions_kept xid (echo_sdk_config c.app) app n regions in
          let selected' = subst (λ f. select_device f "" t r ≡ continues device) shared selected in
          (
            app,
            n,
            select_device-configured app.config.regional_fqdns "" t r device kept selected',
            ap (λ p. is_empty p.0) (sym asked) ∙ default_filled method "POST" refl,
            ap (λ p. is_empty p.1) (sym asked) ∙ default_filled url "/pxgrid/echo/query" refl,
          )
    ]
