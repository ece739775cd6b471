-- ===== src/Examples/Selection.antt =====
-- Which device the echo query asks.
use cloud_sdk_go.Base.{
  ◌≡◌, refl, sym, ◌∙◌, subst, ◌≤◌, Result-cases, ◌≢◌, ◌↔◌, inl, inr, ℕ, ◌+◌, String, false, List,
  [], ◌∷◌, All, All-append, length, length-append, ok, str_eq, arith, if◌then◌else◌, Bool-cases,
}
use cloud_sdk_go.App.Tenants.{Tenant, Device, Registry, get_devices}
use cloud_sdk_go.App.Linking.{is_nil}
use cloud_sdk_go.Examples.Files.{crashes, continues}
use cloud_sdk_go.Examples.Echo.{matches, first_device, filter_devices, select_device}

-- How often a region is configured.
abbrev pub times : String → List String → ℕ
times s [] = 0
times s (x ∷ xs) = (if str_eq s x then 1 else 0) + times s xs

-- The sum over the devices.
abbrev pub times_all : List String → List Device → ℕ
times_all fqdns [] = 0
times_all fqdns (d ∷ ds) = times d.fqdn fqdns + times_all fqdns ds

matches-length : (d : Device) (fqdns : List String) → length (matches d fqdns) ≡ times d.fqdn fqdns
unfolding matches
matches-length d [] = refl
matches-length d (x ∷ xs) = ground (arith, matches-length d xs)

matches-All :
    (d : Device) (fqdns tail : List String)
    → times d.fqdn tail ≤ times d.fqdn fqdns
    → All (λ x. times x.fqdn fqdns ≢ 0) (matches d tail)
unfolding matches
matches-All d fqdns [] h = tt
matches-All d fqdns (x ∷ xs) h = elim (Bool-cases (str_eq d.fqdn x)) [
  | inl same ↦ rw same (ground (arith, same), matches-All d fqdns xs (ground (arith, same)))
  | inr other ↦ rw other (matches-All d fqdns xs (ground (arith, other)))
]

filter-length :
    (fqdns : List String) (fqdn : String) (ds : List Device)
    → is_nil fqdns ≡ false
    → length (filter_devices fqdns fqdn ds) ≡ times_all fqdns ds
unfolding filter_devices
filter-length fqdns fqdn [] h = refl
filter-length fqdns fqdn (d ∷ ds) h =
    rw (filter_devices, h)
      (ground (
        arith,
        length-append (matches d fqdns) (filter_devices fqdns fqdn ds),
        matches-length d fqdns,
        filter-length fqdns fqdn ds h,
      ))

filter-All :
    (fqdns : List String) (fqdn : String) (ds : List Device)
    → is_nil fqdns ≡ false
    → All (λ x. times x.fqdn fqdns ≢ 0) (filter_devices fqdns fqdn ds)
unfolding filter_devices
filter-All fqdns fqdn [] h = tt
filter-All fqdns fqdn (d ∷ ds) h =
    rw (filter_devices, h)
      (All-append (λ x. times x.fqdn fqdns ≢ 0) (matches d fqdns) (filter_devices fqdns fqdn ds)
        (matches-All d fqdns fqdns (omega arith)) (filter-All fqdns fqdn ds h))

none_times :
    (fqdns : List String) (ds : List Device)
    → (times_all fqdns ds ≡ 0) ↔ All (λ x. times x.fqdn fqdns ≡ 0) ds
none_times fqdns [] = (λ e. tt, λ a. refl)
none_times fqdns (d ∷ ds) = (
  λ e. (omega (arith, e), (none_times fqdns ds).0 (omega (arith, e))),
  λ a. let rest = (none_times fqdns ds).1 a.1 in omega (arith, a.0, rest),
)

first_crashes : (xs : List Device) → (first_device xs ≡ crashes) ↔ (length xs ≡ 0)
first_crashes [] = (λ e. refl, λ e. refl)
first_crashes (x ∷ xs) = (λ e. ground arith, λ e. ground arith)

first_of :
    (P : Device → Type 0) (xs : List Device) (x : Device)
    → All P xs
    → first_device xs ≡ continues x
    → P x
first_of P [] x a e = ground arith
first_of P (y ∷ ys) x a e = let q : y ≡ x = ground arith in subst P q a.0

-- With regions configured and devices found, the echo query panics exactly if no device is in a
-- configured region: it takes the first device that is left without a test.
pub select_device-crashes :
    (fqdns : List String) (fqdn : String) (t : Tenant) (r : Registry) (d : Device)
    (ds : List Device)
    → is_nil fqdns ≡ false
    → get_devices t r ≡ ok (d ∷ ds)
    → (select_device fqdns fqdn t r ≡ crashes) ↔ All (λ x. times x.fqdn fqdns ≡ 0) (d ∷ ds)
unfolding select_device
select_device-crashes fqdns fqdn t r d ds h e =
    let c = first_crashes (filter_devices fqdns fqdn (d ∷ ds)) in
    let l = filter-length fqdns fqdn (d ∷ ds) h in
    let n = none_times fqdns (d ∷ ds) in
    rw (select_device, e) (λ x. n.0 (sym l ∙ c.0 x), λ a. c.1 (l ∙ n.1 a))

-- The device that the echo query asks is in a configured region, when regions are configured.
pub select_device-configured :
    (fqdns : List String) (fqdn : String) (t : Tenant) (r : Registry) (selected : Device)
    → is_nil fqdns ≡ false
    → select_device fqdns fqdn t r ≡ continues selected
    → times selected.fqdn fqdns ≢ 0
unfolding select_device
select_device-configured fqdns fqdn t r selected h e = elim (Result-cases (get_devices t r)) [
  | inr (x, g) ↦ ground (arith, g)
  | inl ([], g) ↦ ground (arith, g)
  | inl (d ∷ ds, g) ↦
      first_of (λ x. times x.fqdn fqdns ≢ 0) (filter_devices fqdns fqdn (d ∷ ds)) selected
        (filter-All fqdns fqdn (d ∷ ds) h) (rw (select_device, g) at e)
]
