-- ===== src/Data.antt =====
-- urp/data_types.py: the enumerations, the untyped values and the pydantic models. A model's
-- default arguments are spelled out where the code builds one.
mod Enums
mod Values
mod Results
mod Models
pub mod Sync
unfoldable pub use Enums.*
unfoldable pub use Values.*
unfoldable pub use Results.*
unfoldable pub use Models.*
