-- ===== src/Webhook.antt =====
-- pkg/webhook: the admission checks of the resources.
pub mod SubnetHook
pub mod BindingIpHook
pub mod EndpointHook
pub mod StatusHook
