-- ===== src/Py.antt =====
-- What the program uses of Python itself: exceptions, dictionaries, values, dates.
pub mod Errors
pub mod Yaml
pub mod Datetime
pub mod Row
pub mod Text
pub mod Xml
