-- ===== src/Provider.antt =====
-- The provider, pkg/provider: what virtual-kubelet asks of the node.
pub mod Api
pub mod Status
pub mod PodCredentials
pub mod PullSecrets
pub mod Pods
pub mod Node
