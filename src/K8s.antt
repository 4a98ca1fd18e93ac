-- ===== src/K8s.antt =====
-- The Kubernetes provider, src/llm_sandbox/providers/k8s.py.
pub mod Parse
pub mod ExitCode
pub mod Stream
pub mod Manifest
pub mod Sessions
pub mod Api
pub mod Exec
