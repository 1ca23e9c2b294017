-- ===== src/Registry/Naming.antt =====
-- What the error about an unknown name says.
use unified_runtime_primitiv.Base.{List}
