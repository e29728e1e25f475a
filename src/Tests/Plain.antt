-- ===== src/Tests/Plain.antt =====
-- An interpreter to test with: no value that is not a text prints as anything, and only the
-- ASCII digits are digits. Texts here have one case.
use agens_web.Prelude.{none}
use agens_web.Python.{Runtime}

instance abbrev pub plain : Runtime
plain = record { repr = λ v. ""; decimal = λ c. none; lower = λ s. s; upper = λ s. s }
