-- ===== src/Redfish/Info/Keeps.antt =====
-- pkg/redfish/getinfo.go: the parts that GetInfo adds leave the name of the host as it is.
use topohub.Common.{
  ℕ, ◌+◌, ◌≡◌, refl, ap, ◌∙◌, inl, inr, Bool, true, false, not, Option, none, some, List, [], ◌∷◌,
  ◌++◌, arith, ltb, ◌==◌, Bool-cases, Option-cases, length, Text, codes, text_eq, lookup, insert,
  lookup-insert, ok,
}
use topohub.Net.Format.{format_nat}
use topohub.Redfish.Inventory.{
  PcieDevice, Processor, Memory, Drive, Storage, Function, System, Bmc, Service,
}
use topohub.Redfish.Info.{
  Info, set_data, set_all, at_index, each, set_processor, set_memory, set_drive, set_storage,
  set_ethernet, set_controller, read_items, processor_fields, memory_fields, drive_fields,
  storage_fields, ethernet_fields, controller_fields, pcie_fields, set_functions, set_pcie_device,
  basic_info, memory_info, set_chassis,
}
use topohub.Net.Format.{format_nat}

abbrev pub host_name : Text
host_name = codes "HostName"

-- setting texts leaves the host's name as it is
abbrev pub Keeps : (Info → Info) → Type 0
Keeps f = (m : Info) → lookup host_name (f m) ≡ lookup host_name m

set_data-Keeps : (key v : Text) → text_eq key host_name ≡ false → Keeps (set_data key v)
unfolding set_data
set_data-Keeps key v h m = ground (arith, lookup-insert key host_name v m)

-- a text that begins with another letter than the key of the name
abbrev is_other : Text → Bool
is_other [] = false
is_other (c ∷ s) = not (c == b'H')

other_key : (p s : Text) → is_other p ≡ true → text_eq (p ++ s) host_name ≡ false
unfolding text_eq
other_key [] s h = cc
other_key (c ∷ p) s h = ground arith

other_prefix : (p s : Text) → is_other p ≡ true → is_other (p ++ s) ≡ true
other_prefix [] s h = cc
other_prefix (c ∷ p) s h = h

set_all-Keeps : (p : Text) (kvs : List (Text × Text)) → is_other p ≡ true → Keeps (set_all p kvs)
unfolding set_all
set_all-Keeps p [] h m = refl
set_all-Keeps p ((k, v) ∷ kvs) h m =
    set_all-Keeps p kvs h (set_data (p ++ k) v m) ∙ set_data-Keeps (p ++ k) v (other_key p k h) m

pub each-Keeps {ℓ} :
    {A : Type ℓ} (f : ℕ → A → Info → Info) (n : ℕ) (xs : List A)
    → ((n : ℕ) (x : A) → Keeps (f n x))
    → Keeps (each f n xs)
each-Keeps f n [] h m = refl
each-Keeps f n (x ∷ xs) h m = each-Keeps f (n + 1) xs h (f n x m) ∙ h n x m

pub set_processor-Keeps : (n : ℕ) (x : Processor) → Keeps (set_processor n x)
unfolding set_processor at_index
set_processor-Keeps n x = set_all-Keeps (at_index (codes "Cpu") n) (processor_fields x) refl

set_memory-Keeps : (n : ℕ) (x : Memory) → Keeps (set_memory n x)
unfolding set_memory at_index
set_memory-Keeps n x = set_all-Keeps (at_index (codes "Memory") n) (memory_fields x) refl

set_drive-Keeps :
    (storage : Text) (n : ℕ) (x : Drive) → is_other storage ≡ true → Keeps (set_drive storage n x)
unfolding set_drive
set_drive-Keeps storage n x h =
    set_all-Keeps (storage ++ at_index (codes "Drive") n) (drive_fields x)
      (other_prefix storage (at_index (codes "Drive") n) h)

pub set_storage-Keeps : (n : ℕ) (x : Storage) → Keeps (set_storage n x)
unfolding set_storage at_index
set_storage-Keeps n x m =
    let storage = at_index (codes "Storage") n in
    let named = set_all-Keeps storage (storage_fields x) refl m in
    elim (Option-cases (x.drives)) [
      | inl z ↦ rw z named
      | inr (ds, z) ↦ rw z (
          each-Keeps (set_drive storage) 0 ds (λ k d. set_drive-Keeps storage k d refl)
            (set_all storage (storage_fields x) m)
          ∙ named)
    ]

-- a count, and the items of a function
set_items-Keeps {ℓ} :
    {A : Type ℓ} (f : ℕ → A → Info → Info) (device key v : Text) (xs : List A)
    → is_other device ≡ true
    → ((n : ℕ) (x : A) → Keeps (f n x))
    → Keeps (λ m. each f 0 xs (set_data (device ++ key) v m))
set_items-Keeps f device key v xs h k m =
    each-Keeps f 0 xs k (set_data (device ++ key) v m)
    ∙ set_data-Keeps (device ++ key) v (other_key device key h) m

set_functions-Keeps :
    (device : Text) (n : ℕ) (pfcs : List Function)
    → is_other device ≡ true
    → Keeps (set_functions device n pfcs)
unfolding set_functions set_ethernet set_controller
set_functions-Keeps device n [] h m = refl
set_functions-Keeps device n (x ∷ xs) h m =
    let function = device ++ at_index (codes "Functions") n in
    let h' = other_prefix device (at_index (codes "Functions") n) h in
    let ints = read_items x.ethernet_interfaces in
    let stors = read_items x.storage_controllers in
    elim (Bool-cases (ltb 0 (length ints))) [
      | inl z ↦ rw z (
          set_items-Keeps (set_ethernet function) device (codes "NetworkInterfacePortCount")
            (format_nat (length ints)) ints h
            (λ t y.
              set_all-Keeps (function ++ at_index (codes "EthernetInterfaces") t)
                (ethernet_fields y)
                (other_prefix function (at_index (codes "EthernetInterfaces") t) h'))
            m)
      | inr z ↦ elim (Bool-cases (ltb 0 (length stors))) [
        | inl y ↦
            rw (z, y)
              (set_items-Keeps (set_controller function) device (codes "StorageControllerPortCount")
                (format_nat (length stors)) stors h
                (λ t y.
                  set_all-Keeps (function ++ at_index (codes "StorageControllers") t)
                    (controller_fields y)
                    (other_prefix function (at_index (codes "StorageControllers") t) h'))
                m)
        | inr y ↦ rw (z, y) (set_functions-Keeps device (n + 1) xs h m)
      ]
    ]

set_pcie_device-Keeps : (n : ℕ) (x : PcieDevice) → Keeps (set_pcie_device n x)
unfolding set_pcie_device at_index
set_pcie_device-Keeps n x m =
    let device = at_index (codes "PCIeDevices") n in
    set_functions-Keeps device 0 (read_items x.functions) refl (set_all device (pcie_fields x) m)
    ∙ set_all-Keeps device (pcie_fields x) refl m

pub set_chassis-Keeps :
    (cs : List (Option (List PcieDevice))) (m result : Info)
    → set_chassis cs m ≡ ok result
    → lookup host_name result ≡ lookup host_name m
unfolding set_chassis
set_chassis-Keeps [] m result h = let e : result ≡ m = cc in ap (lookup host_name) e
set_chassis-Keeps (none ∷ cs) m result h = cc
set_chassis-Keeps (some [] ∷ cs) m result h = set_chassis-Keeps cs m result h
set_chassis-Keeps (some (x ∷ xs) ∷ cs) m result h =
    let e : result ≡ each set_pcie_device 0 (x ∷ xs) m = cc in
    ap (lookup host_name) e ∙ each-Keeps set_pcie_device 0 (x ∷ xs) set_pcie_device-Keeps m

pub basic_info-host_name :
    (service : Service) (bmc : Bmc) (system : System)
    → lookup host_name (basic_info service bmc system) ≡ some system.host_name
unfolding basic_info set_data lookup insert text_eq
basic_info-host_name service bmc system = refl

pub memory_info-host_name : (system : System) (mms : List Memory) → Keeps (memory_info system mms)
unfolding memory_info
memory_info-host_name system mms m =
    each-Keeps set_memory 0 mms set_memory-Keeps
      (set_data (codes "MemoryChipsAccount") (format_nat (length mms)) m)
    ∙ set_data-Keeps (codes "MemoryChipsAccount") (format_nat (length mms)) other m
  where
    other : text_eq (codes "MemoryChipsAccount") host_name ≡ false
    other = other_key (codes "MemoryChipsAccount") [] refl

pub memory_total-Keeps :
    (v w : Text) → Keeps (set_all [] ((codes "MemoryTotalGiB", v) ∷ (codes "MemoryStatus", w) ∷ []))
unfolding set_all
memory_total-Keeps v w m =
    set_data-Keeps (codes "MemoryStatus") w (other_key (codes "MemoryStatus") [] refl)
      (set_data (codes "MemoryTotalGiB") v m)
    ∙ set_data-Keeps (codes "MemoryTotalGiB") v (other_key (codes "MemoryTotalGiB") [] refl) m
