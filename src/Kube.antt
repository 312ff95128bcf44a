-- ===== src/Kube.antt =====
-- What the components read of Kubernetes objects, and the tests of pkg/apis/kube.
pub mod Job
pub mod Pod
