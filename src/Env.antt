-- ===== src/Env.antt =====
-- What the package uses and does not implement: the concurrent map, the JSON codec with Go's
-- dynamic values, and the file system.
pub mod XsyncMap
pub mod Json
pub mod Os
pub mod Float64
pub mod Rand
pub mod KeyValue
