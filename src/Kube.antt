-- ===== src/Kube.antt =====
-- What the operator uses of the Kubernetes API, of the network and of the clock: the objects by the
-- fields that it reads or writes, and the calls as a parameter of the model.
mod Objects
mod Monad
pub mod Quiet
pub mod Logs
pub mod Succeeds
pub mod Preserves
pub use Objects.*
unfoldable pub use Monad.*
