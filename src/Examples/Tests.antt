-- ===== src/Examples/Tests.antt =====
-- Instances of the theorems on the examples, with a disk that keeps configurations as they are.
use cloud_sdk_go.Base.{
  ◌≡◌, refl, sym, ap, ◌∙◌, ◌↔◌, true, false, Option, none, some, List, [], ◌∷◌, String, str_eq,
  if◌then◌else◌, All, Dict, lookup, insert, message, lookup-insert, eq_refl, arith, Result, ok, err,
}
use cloud_sdk_go.App.Text.{trim_space, trim_left, trim_right, keep, is_space}
use cloud_sdk_go.App.Config.{validate_config, sanitize, check_config, any_empty}
use cloud_sdk_go.App.Notices.{configure_read_stream_gap_notifications, read_stream_gap_tracker}
use cloud_sdk_go.App.Tenants.{
  Tenant, Device, ErrorResponse, Reply, success, failed, error_status, Registry, fetch_devices,
  reply_result, to_devices, get_devices, values,
}
use cloud_sdk_go.App.Linking.{
  RedeemResponse, link_tenant, store_tenant, store_devices, finish_link, index_devices,
}
use cloud_sdk_go.App.Start.{App, new_app}
use cloud_sdk_go.Examples.Files.{
  Files, IsFaithful, crashes, exits, continues, load_config, store_config,
}
use cloud_sdk_go.Examples.Consumer.{
  AppConfig, ConsumerConfig, sdk_config, Replies, linked, tenant_entry, open_tenant, keep_tenant,
  run_consumer,
}
use cloud_sdk_go.Examples.Restart.{IsOneTime, consumer_restarts, unstored_link_lost}
use cloud_sdk_go.Examples.Selection.{times, select_device-crashes}
use cloud_sdk_go.Examples.Echo.{select_device, filter_devices, matches}
use cloud_sdk_go.Examples.Publisher.{
  Round, answers, IsNumbered, run_publisher, run_publisher-IsNumbered,
}

abbrev found : {A : Type 0} → Option A → Result A
found none = err (message "no such file")
found (some a) = ok a

-- A disk on which every write succeeds.
abbrev pub disk_files : {C : Type 0} → Files (Dict C) C
disk_files {C} = record {
  Text = C;
  read = λ path d. found (lookup path d);
  write = λ path text d. (insert path text d, none);
  marshal = ok;
  unmarshal = ok;
}

pub disk_files-IsFaithful : (C : Type 0) → IsFaithful (disk_files {C = C})
disk_files-IsFaithful C = record {
  reads_written = λ path text d d' e.
      let p : insert path text d ≡ d' = ap (λ x. x.0) e in
      let q : lookup path (insert path text d) ≡ some text =
        rw (lookup-insert path path text d, eq_refl path) refl in
      ap found (ap (lookup path) (sym p) ∙ q);
  reads_marshalled = λ c text e. sym e;
}

abbrev pub app_config : AppConfig
app_config = record {
  id = "app";
  api_key = "key";
  global_fqdn = "global";
  regional_fqdn = "us";
  regional_fqdns = [];
  read_stream = "r";
  write_stream = "w";
  group_id = "";
}

abbrev consumer_config : ConsumerConfig
consumer_config = record {
  app = app_config;
  tenant = record { otp = "1234"; id = ""; name = ""; token = "" };
}

abbrev resp : RedeemResponse
resp = record { token = "secret"; tenant_id = "t1"; tenant_name = "Acme" }

abbrev pub acme : Tenant
acme = record { id = "t1"; name = "Acme"; api_token = "secret" }

abbrev pub replies : Replies
replies = record { redeemed = success resp; fetched = success []; unlinked = success tt }

abbrev disk : Dict ConsumerConfig
disk = ("c.yaml", consumer_config) ∷ []

loads : load_config disk_files "c.yaml" disk ≡ ok consumer_config
unfolding load_config lookup
loads = refl

abbrev stored : ConsumerConfig
stored = record consumer_config { tenant = tenant_entry acme }

abbrev the_app : App
the_app = record {
  config = record (sdk_config "g" app_config) { regional_fqdns = "us" ∷ [] };
  regions = record { fqdn = "us"; tracker = none; connection = none } ∷ [];
  error = [];
  log_each_message = false;
  notices = none;
  stopped = false;
}

the_app-made : new_app "x1" (sdk_config "g" app_config) ≡ ok the_app
unfolding new_app validate_config sanitize check_config any_empty sdk_config trim_space trim_left
    trim_right keep is_space configure_read_stream_gap_notifications read_stream_gap_tracker
the_app-made = refl

abbrev the_registry : Registry
the_registry = record { tenants = ("t1", acme) ∷ []; devices = ("t1", []) ∷ []; connecting = true }

abbrev disk2 : Dict ConsumerConfig
disk2 = ("c.yaml", stored) ∷ []

first_run :
    run_consumer disk_files "c.yaml" "g" "x1" replies disk
    ≡ (disk2, continues (the_app, the_registry, acme))
unfolding run_consumer keep_tenant store_config insert open_tenant link_tenant store_tenant
    store_devices finish_link index_devices fetch_devices reply_result to_devices linked sdk_config
first_run = rw (run_consumer, loads, the_app-made) refl

consumer_restarts_example :
    (app' : App) × (r' : Registry) × (run_consumer disk_files "c.yaml" "g" "x2"
        (record { redeemed = failed (message "used"); fetched = success []; unlinked = success tt })
        disk2
      ≡ (disk2, continues (app', r', acme)))
unfolding store_config
consumer_restarts_example =
    consumer_restarts disk_files "c.yaml" "g" "x1" "x2" replies (failed (message "used"))
      (success tt) [] disk disk2 consumer_config the_app the_registry acme
      (disk_files-IsFaithful ConsumerConfig) loads refl refl first_run

-- A disk on which no write succeeds.
abbrev full_files : Files (Dict ConsumerConfig) ConsumerConfig
full_files = record disk_files { write = λ path text d. (d, some (message "disk is full")) }

full_loads : load_config full_files "c.yaml" disk ≡ ok consumer_config
unfolding load_config lookup
full_loads = refl

abbrev used : ErrorResponse
used = record { error = "OTP used"; text = "" }

-- A cloud that redeems each password once.
abbrev redeem_once : List String → String → Reply RedeemResponse
redeem_once [] otp = success resp
redeem_once (u ∷ us) otp = if str_eq u otp then error_status 400 used else redeem_once us otp

redeem_once-IsOneTime : IsOneTime redeem_once
redeem_once-IsOneTime otp us = (400, used, rw (eq_refl otp) refl)

unstored_link_lost_example :
    (r : Registry) × (run_consumer full_files "c.yaml" "g" "x1"
        (record { redeemed = success resp; fetched = success []; unlinked = success tt })
        disk
      ≡ (disk, continues (the_app, r, acme)))
    × (run_consumer full_files "c.yaml" "g" "x2"
          (record { redeemed = error_status 400 used; fetched = success []; unlinked = success tt })
          disk
        ≡ (disk, exits 255))
unfolding store_config
unstored_link_lost_example =
    unstored_link_lost full_files "c.yaml" "g" "x1" "x2" redeem_once [] resp [] (success [])
      (success tt) (success tt) disk consumer_config the_app (message "disk is full")
      redeem_once-IsOneTime full_loads refl the_app-made refl refl

abbrev d1 : Device
d1 = record {
  id = "d1";
  kind = "ise";
  name = "First";
  region = "us";
  status = "enrolled";
  tenant = acme;
  fqdn = "us.example";
}

abbrev one_device : Registry
one_device = record {
  tenants = ("t1", acme) ∷ [];
  devices = ("t1", ("d1", d1) ∷ []) ∷ [];
  connecting = true;
}

d1-listed : get_devices acme one_device ≡ ok (d1 ∷ [])
unfolding get_devices values lookup
d1-listed = refl

select_device-crashes_example :
    (select_device ("eu.example" ∷ []) "" acme one_device ≡ crashes)
    ↔ All (λ x. times x.fqdn ("eu.example" ∷ []) ≡ 0) (d1 ∷ [])
select_device-crashes_example =
    select_device-crashes ("eu.example" ∷ []) "" acme one_device d1 [] refl d1-listed

selected : select_device ("us.example" ∷ []) "" acme one_device ≡ continues d1
unfolding select_device get_devices values lookup filter_devices matches
selected = refl

abbrev round : Round
round = record { devices = d1 ∷ d1 ∷ []; answer = λ n. answers 500 none; ended = λ n. false }

run_publisher-IsNumbered_example : IsNumbered 0 (run_publisher (round ∷ round ∷ []) 0).1
run_publisher-IsNumbered_example = run_publisher-IsNumbered (round ∷ round ∷ []) (omega arith)
