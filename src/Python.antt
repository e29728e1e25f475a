-- ===== src/Python.antt =====
-- What the program uses of Python's dynamic values: JSON-like data, truth, equality, `int` and
-- `str`. What the interpreter knows and the sources do not say (the text of a float or of a
-- container, the decimal digits outside ASCII) is the record `Runtime`, an argument.
mod Data
mod Convert
pub mod Dictionaries
unfoldable pub use Data.*
unfoldable pub use Convert.*
