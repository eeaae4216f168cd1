-- ===== src/Redfish/Inventory.antt =====
-- pkg/redfish/getinfo.go: what GetInfo reads of the gofish library's objects. Their enumerations are
-- texts. A field that the code formats from a float is the text that it makes of it. An Option is
-- what a call of the library returns, none an error.
use topohub.Common.{Bool, Option, List, Text, ℤ}
use topohub.Redfish.Power.{Parameter}

pub record Status : Type 0 where
  pub health : Text
  pub state : Text

pub record Bmc : Type 0 where
  pub firmware_version : Text
  pub status : Status

pub record Processor : Type 0 where
  pub manufacturer : Text
  pub processor_type : Text
  pub status : Status

pub record Memory : Type 0 where
  pub manufacturer : Text
  pub memory_type : Text
  pub memory_device_type : Text
  pub model : Text
  pub capacity_gib : Text
  pub status : Status

pub record Drive : Type 0 where
  pub name : Text
  pub model : Text
  pub manufacturer : Text
  pub serial_number : Text
  pub media_type : Text
  pub protocol : Text
  pub capacity_gib : Text
  pub status : Status

pub record Storage : Type 0 where
  pub name : Text
  pub id : Text
  pub status : Status
  pub drives : Option (List Drive)

pub record Ethernet : Type 0 where
  pub mac_address : Text
  pub speed_gbps : Text
  pub status : Status

-- a PCIe function: its EthernetInterfaces and the status of its StorageControllers
pub record Function : Type 0 where
  pub ethernet_interfaces : Option (List Ethernet)
  pub storage_controllers : Option (List Status)

pub record PcieDevice : Type 0 where
  pub name : Text
  pub manufacturer : Text
  pub model : Text
  pub description : Text
  pub firmware_version : Text
  pub pcie_type : Text
  pub max_pcie_type : Text
  pub lanes_in_use : ℤ
  pub max_lanes : ℤ
  pub status : Status
  pub functions : Option (List Function)

pub record ProcessorSummary : Type 0 where
  pub count : ℤ
  pub logical_processor_count : ℤ
  pub model : Text
  pub status : Status

pub record MemorySummary : Type 0 where
  pub total_system_memory_gib : Text
  pub status : Status

pub record System : Type 0 where
  pub bios_version : Text
  pub host_name : Text
  pub manufacturer : Text
  pub power_state : Text
  pub status : Status
  pub supported_reset_types : List Text
  pub reset_action_info : Option (List Parameter)
  pub processor_summary : ProcessorSummary
  pub processors : Option (List Processor)
  pub memory_summary : MemorySummary
  pub memory : Option (List Memory)
  pub storage : Option (List Storage)

-- Chassis may return what it has read along with an error; each is the PCIeDevices of a chassis.
pub record Service : Type 0 where
  pub redfish_version : Text
  pub vendor : Text
  pub managers : Option (List Bmc)
  pub systems : Option (List System)
  pub is_chassis_read : Bool
  pub chassis : List (Option (List PcieDevice))
