-- ===== src/Resources.antt =====
-- api/v1alpha2: the custom resources Runner and RunnerSet, and of the Kubernetes resources that the
-- controllers own (Pod, Secret, ControllerRevision) the parts that the code reads or writes.
mod Meta
mod RunnerTypes
mod RunnerSetTypes
mod Owned
pub use Meta.*
pub use RunnerTypes.*
pub use RunnerSetTypes.*
pub use Owned.*
