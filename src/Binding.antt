-- ===== src/Binding.antt =====
-- pkg/bindingip: the cache of the BindingIps and the controller that fills it.
pub mod Cache
pub mod Controller
pub mod Sync
