-- ===== src/Redfish/Info/Complete.antt =====
-- pkg/redfish/getinfo.go: when GetInfo fails, and the types of the PCIe devices.
use topohub.Common.{
  ℕ, ◌≡◌, refl, ap, ◌∙◌, true, false, ◌&&◌, ◌||◌, Option, none, some, List, [], ◌∷◌, map, arith,
  ltb, leb, guard, require, >>=-eq-ok, length, Text, codes, text_eq, to_lower, lookup, ok,
}
use topohub.Redfish.Inventory.{Processor, Memory, Storage, System, Bmc, Service}
use topohub.Redfish.Info.{
  Info, set_all, each, set_processor, set_storage, basic_info, memory_info, no_bmc, no_system,
  no_processors, no_memory, no_storage, no_chassis, device_type, first_of, get_info,
}
use topohub.Redfish.Info.Keeps.{
  host_name, each-Keeps, set_processor-Keeps, set_storage-Keeps, set_chassis-Keeps,
  basic_info-host_name, memory_info-host_name, memory_total-Keeps,
}

-- a lower case text is none with an upper case letter at its head
lower_differs :
    (c : ℕ) (s t : Text)
    → (leb b'A' c && leb c b'Z') ≡ true
    → text_eq (map to_lower s) (c ∷ t) ≡ false
unfolding text_eq
lower_differs c [] t h = refl
lower_differs c (d ∷ s) t h = ground arith

-- Every description of a PCIe device gives the type Unknown: no text in lower case is one of those
-- that the switch names.
pub device_type-unknown : (description : Text) → device_type description ≡ codes "Unknown"
unfolding device_type
device_type-unknown d =
    rw
      (
        lower_differs b'G' d (codes "PU Device") refl,
        lower_differs b'N' d (codes "VMeSSD Device") refl,
        lower_differs b'N' d (codes "IC device") refl,
      )
      refl

-- the texts before those of the PCIe devices
abbrev gathered : Service → Bmc → System → List Processor → List Memory → List Storage → Info
gathered service bmc system cpus mms storages = each set_storage 0 storages (
    memory_info system mms (
      set_all []
        ((codes "MemoryTotalGiB", system.memory_summary.total_system_memory_gib)
          ∷ (codes "MemoryStatus", system.memory_summary.status.health)
          ∷ [])
        (each set_processor 0 cpus (basic_info service bmc system))))

gathered-host_name :
    (service : Service) (bmc : Bmc) (system : System) (cpus : List Processor) (mms : List Memory)
    (storages : List Storage)
    → lookup host_name (gathered service bmc system cpus mms storages) ≡ some system.host_name
gathered-host_name service bmc system cpus mms storages =
    each-Keeps set_storage 0 storages set_storage-Keeps _
    ∙ memory_info-host_name system mms _
    ∙ memory_total-Keeps system.memory_summary.total_system_memory_gib
        system.memory_summary.status.health _
    ∙ each-Keeps set_processor 0 cpus set_processor-Keeps _
    ∙ basic_info-host_name service bmc system

-- Whatever GetInfo sets after it, the HostName that it returns is the one of the first system.
pub get_info-host_name :
    (service : Service) (system : System) (more : List System) (info : Info)
    → service.systems ≡ some (system ∷ more)
    → get_info service ≡ ok info
    → lookup host_name info ≡ some system.host_name
unfolding get_info first_of
get_info-host_name service system more info e h =
    let (bmc, h0, h1) = >>=-eq-ok (first_of no_bmc service.managers) _ h in
    let (system', s, h2) = >>=-eq-ok (first_of no_system service.systems) _ h1 in
    let (cpus, h3, h4) = >>=-eq-ok (require system'.processors no_processors) _ h2 in
    let (mms, h5, h6) = >>=-eq-ok (require system'.memory no_memory) _ h4 in
    let (storages, h7, h8) = >>=-eq-ok (require system'.storage no_storage) _ h6 in
    let (u, h9, set) =
      >>=-eq-ok (guard (service.is_chassis_read || ltb 0 (length service.chassis)) no_chassis) _
        h8 in
    let same : system' ≡ system = first_found service.systems s e in
    set_chassis-Keeps service.chassis (gathered service bmc system' cpus mms storages) info set
    ∙ gathered-host_name service bmc system' cpus mms storages
    ∙ ap (λ (x : System). some x.host_name) same
  where
    first_found :
        (o : Option (List System)) {x y : System} {ys : List System}
        → first_of no_system o ≡ ok x
        → o ≡ some (y ∷ ys)
        → x ≡ y
    first_found none p q = cc
    first_found (some []) p q = cc
    first_found (some (z ∷ zs)) p q = cc
