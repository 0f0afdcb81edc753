-- ===== src/Api.antt =====
-- pkg/apis/v1alpha1/types.go. A field that the source calls Data is `entries` or `items` here, and a
-- pointer is an `Option`. The kinds inline `TypeMeta`, which nothing reads; it is left out.
mod Meta
mod Secrets
mod Stores
mod Syncs
pub use Meta.*
pub use Secrets.*
pub use Stores.*
pub use Syncs.*
