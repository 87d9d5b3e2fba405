-- ===== src/Operator.antt =====
-- cmd/operator/main.go: the operator's process, with `SetupWithManager` of the two reconcilers in
-- internal/controller, `SetupArkClusterWebhookWithManager` of internal/webhook/v1alpha1 and the scheme
-- of api/v1alpha1. controller-runtime is the parameter `Runtime`; the flags are as `flag.Parse` leaves
-- them, and the environment does not change while the process starts. The log lines are left out.
pub mod Options
pub mod Startup
