-- ===== src/Python.antt =====
-- What the sources use of Python's `bytes`, `str`, `int` and `struct`. A `bytes` is the list of its
-- bytes, a `str` the list of its code points, an `int` a ℤ.
pub mod Bytes
pub mod Text
pub mod Decimal
pub mod Find
pub mod Dict
pub mod Xml
pub mod Struct
