-- ===== src/Redfish/Info.antt =====
-- pkg/redfish/getinfo.go: GetInfo, the texts that a RedfishStatus has of its host's parts.
pub mod Keeps
pub mod Complete
use topohub.Common.{
  ℕ, ◌+◌, ◌||◌, Option, none, some, List, [], ◌∷◌, ◌++◌, map, ltb, if◌then◌else◌, Result, ◌>>=◌,
  guard, require, length, Text, codes, text_eq, to_lower, Map, insert, ok, err,
}
use topohub.Net.Format.{format_nat, format_int}
use topohub.Redfish.Power.{get_supported_reset_types}
use topohub.Redfish.Inventory.{
  Status, Bmc, Processor, Memory, Drive, Storage, Ethernet, Function, PcieDevice, System, Service,
}

abbrev pub Info : Type 0
Info = Map Text

-- setData
unfoldable pub set_data : Text → Text → Info → Info
set_data key value result = insert key value result

-- setData of each key behind a prefix
unfoldable pub set_all : Text → List (Text × Text) → Info → Info
unfolding set_data
set_all prefix [] result = result
set_all prefix ((key, value) ∷ rest) result =
    set_all prefix rest (set_data (prefix ++ key) value result)

-- "name[n]."
unfoldable pub at_index : Text → ℕ → Text
at_index name n = name ++ (codes "[" ++ (format_nat n ++ codes "]."))

-- `for n, item := range items { ... }` from the n-th on
abbrev pub each {ℓ} : {A : Type ℓ} → (ℕ → A → Info → Info) → ℕ → List A → Info → Info
each f n [] result = result
each f n (x ∷ xs) result = each f (n + 1) xs (f n x result)

abbrev pub processor_fields : Processor → List (Text × Text)
processor_fields cpu =
    (codes "Manufacturer", cpu.manufacturer)
    ∷ (codes "ProcessorType", cpu.processor_type)
    ∷ (codes "Health", cpu.status.health)
    ∷ (codes "State", cpu.status.state)
    ∷ []

unfoldable pub set_processor : ℕ → Processor → Info → Info
unfolding set_all at_index
set_processor n cpu = set_all (at_index (codes "Cpu") n) (processor_fields cpu)

abbrev pub memory_fields : Memory → List (Text × Text)
memory_fields mm =
    (codes "Manufacturer", mm.manufacturer)
    ∷ (codes "MemoryType", mm.memory_type)
    ∷ (codes "MemoryDeviceType", mm.memory_device_type)
    ∷ (codes "Manufacturer", mm.manufacturer)
    ∷ (codes "Model", mm.model)
    ∷ (codes "CapacityGiB", mm.capacity_gib)
    ∷ (codes "Health", mm.status.health)
    ∷ (codes "State", mm.status.state)
    ∷ []

unfoldable pub set_memory : ℕ → Memory → Info → Info
unfolding set_all at_index
set_memory n mm = set_all (at_index (codes "Memory") n) (memory_fields mm)

abbrev pub drive_fields : Drive → List (Text × Text)
drive_fields drive =
    (codes "Name", drive.name)
    ∷ (codes "Model", drive.model)
    ∷ (codes "Manufacturer", drive.manufacturer)
    ∷ (codes "SerialNumber", drive.serial_number)
    ∷ (codes "MediaType", drive.media_type)
    ∷ (codes "Protocol", drive.protocol)
    ∷ (codes "CapacityGiB", drive.capacity_gib)
    ∷ (codes "Health", drive.status.health)
    ∷ (codes "State", drive.status.state)
    ∷ []

unfoldable pub set_drive : Text → ℕ → Drive → Info → Info
unfolding set_all at_index
set_drive storage m drive = set_all (storage ++ at_index (codes "Drive") m) (drive_fields drive)

abbrev pub storage_fields : Storage → List (Text × Text)
storage_fields st =
    (codes "Name", st.name)
    ∷ (codes "Id", st.id)
    ∷ (codes "Health", st.status.health)
    ∷ (codes "State", st.status.state)
    ∷ []

-- a storage and its drives, where they are read
unfoldable pub set_storage : ℕ → Storage → Info → Info
unfolding set_drive
set_storage n st result =
    let storage = at_index (codes "Storage") n in
    let named = set_all storage (storage_fields st) result in
    elim (st.drives) [ none ↦ named | some drives ↦ each (set_drive storage) 0 drives named ]

-- the switch over the description in lower case
unfoldable pub device_type : Text → Text
device_type description =
    let lower = map to_lower description in
    if text_eq lower (codes "GPU Device")
    then codes "GPU"
    else if text_eq lower (codes "NVMeSSD Device")
    then codes "STORAGE"
    else if text_eq lower (codes "NIC device")
    then codes "NIC"
    else codes "Unknown"

abbrev pub ethernet_fields : Ethernet → List (Text × Text)
ethernet_fields netint =
    (codes "MACAddress", netint.mac_address)
    ∷ (codes "SpeedGbps", netint.speed_gbps)
    ∷ (codes "State", netint.status.state)
    ∷ (codes "Health", netint.status.health)
    ∷ []

unfoldable pub set_ethernet : Text → ℕ → Ethernet → Info → Info
unfolding set_all at_index
set_ethernet function t netint =
    set_all (function ++ at_index (codes "EthernetInterfaces") t) (ethernet_fields netint)

abbrev pub controller_fields : Status → List (Text × Text)
controller_fields stor = (codes "Health", stor.health) ∷ (codes "State", stor.state) ∷ []

unfoldable pub set_controller : Text → ℕ → Status → Info → Info
unfolding set_all at_index
set_controller function t stor =
    set_all (function ++ at_index (codes "StorageControllers") t) (controller_fields stor)

-- err == nil && len(items) > 0
abbrev pub read_items {ℓ} : {A : Type ℓ} → Option (List A) → List A
read_items none = []
read_items (some items) = items

-- the loop over the functions from the n-th on, up to the first with interfaces or controllers
unfoldable pub set_functions : Text → ℕ → List Function → Info → Info
unfolding set_ethernet set_controller
set_functions device n [] result = result
set_functions device n (pfc ∷ pfcs) result =
    let ints = read_items pfc.ethernet_interfaces in
    let stors = read_items pfc.storage_controllers in
    let function = device ++ at_index (codes "Functions") n in
    let rest = set_functions device (n + 1) pfcs result in
    if ltb 0 (length ints)
    then each (set_ethernet function) 0 ints
        (set_data (device ++ codes "NetworkInterfacePortCount") (format_nat (length ints)) result)
    else if ltb 0 (length stors)
    then each (set_controller function) 0 stors
        (set_data (device ++ codes "StorageControllerPortCount") (format_nat (length stors)) result)
    else rest

unfoldable pub pcie_fields : PcieDevice → List (Text × Text)
unfolding device_type
pcie_fields item =
    (codes "DeviceType", device_type item.description)
    ∷ (codes "Name", item.name)
    ∷ (codes "Manufacturer", item.manufacturer)
    ∷ (codes "Model", item.model)
    ∷ (codes "Description", item.description)
    ∷ (codes "FirmwareVersion", item.firmware_version)
    ∷ (codes "PCIeType", item.pcie_type)
    ∷ (codes "MaxPCIeType", item.max_pcie_type)
    ∷ (codes "LanesInUse", format_int item.lanes_in_use)
    ∷ (codes "MaxLanes", format_int item.max_lanes)
    ∷ (codes "Health", item.status.health)
    ∷ (codes "State", item.status.state)
    ∷ []

unfoldable pub set_pcie_device : ℕ → PcieDevice → Info → Info
unfolding set_functions pcie_fields
set_pcie_device m item result =
    let device = at_index (codes "PCIeDevices") m in
    set_functions device 0 (read_items item.functions) (set_all device (pcie_fields item) result)

-- the errors of GetInfo
pub data InfoError : Type 0 where
  no_bmc no_system no_processors no_memory no_storage no_chassis no_pcie_devices : InfoError

-- the first of a list that is read and not empty
unfoldable pub first_of {ℓ} : {A : Type ℓ} → InfoError → Option (List A) → Result InfoError A
first_of e none = err e
first_of e (some []) = err e
first_of e (some (x ∷ xs)) = ok x

-- the loop over the chassis, up to the first with PCIe devices
unfoldable pub set_chassis : List (Option (List PcieDevice)) → Info → Result InfoError Info
unfolding set_pcie_device
set_chassis [] result = ok result
set_chassis (none ∷ cs) result = err no_pcie_devices
set_chassis (some [] ∷ cs) result = set_chassis cs result
set_chassis (some (item ∷ items) ∷ cs) result = ok (each set_pcie_device 0 (item ∷ items) result)

-- the texts of the BMC and of the system, up to its processors
unfoldable pub basic_info : Service → Bmc → System → Info
unfolding set_all
basic_info service bmc system =
    set_all []
      ((codes "BmcFirmwareVersion", bmc.firmware_version)
        ∷ (codes "BmcStatus", bmc.status.health)
        ∷ (codes "BiosVerison", system.bios_version)
        ∷ (codes "HostName", system.host_name)
        ∷ (codes "Manufacturer", system.manufacturer)
        ∷ (codes "PowerState", system.power_state)
        ∷ (codes "SystemStatus", system.status.health)
        ∷ (codes "RedfishVersion", service.redfish_version)
        ∷ (codes "Vendor", service.vendor)
        ∷ (
          codes "SupportedReset",
          get_supported_reset_types system.supported_reset_types system.reset_action_info,
        )
        ∷ (codes "CpuPhysicalCore", format_int system.processor_summary.count)
        ∷ (codes "CpuLogicalCore", format_int system.processor_summary.logical_processor_count)
        ∷ (codes "CpuModel", system.processor_summary.model)
        ∷ (codes "CpuStatus", system.processor_summary.status.health)
        ∷ [])
      []

-- the texts of the memory, given its chips
unfoldable pub memory_info : System → List Memory → Info → Info
unfolding set_memory
memory_info system mms result =
    each set_memory 0 mms (set_data (codes "MemoryChipsAccount") (format_nat (length mms)) result)

-- GetInfo
unfoldable pub get_info : Service → Result InfoError Info
unfolding first_of set_chassis basic_info memory_info set_processor set_storage
get_info service = first_of no_bmc service.managers >>= λ bmc.
    first_of no_system service.systems >>= λ system.
    require system.processors no_processors >>= λ cpus. require system.memory no_memory >>= λ mms.
    require system.storage no_storage >>= λ storages.
    guard (service.is_chassis_read || ltb 0 (length service.chassis)) no_chassis >>= λ _.
    set_chassis service.chassis (
      each set_storage 0 storages (
        memory_info system mms (
          set_all []
            ((codes "MemoryTotalGiB", system.memory_summary.total_system_memory_gib)
              ∷ (codes "MemoryStatus", system.memory_summary.status.health)
              ∷ [])
            (each set_processor 0 cpus (basic_info service bmc system)))))
