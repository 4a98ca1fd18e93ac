-- ===== src/Python.antt =====
-- What the service uses of Python's standard library, on texts and bytes.
pub mod Shlex
pub mod Decimal
pub mod Strings
pub mod Utf8
pub mod Base64
pub mod Query
pub mod Json
