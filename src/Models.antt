-- ===== src/Models.antt =====
-- src/model/*.hpp and auth_models.cpp: the requests that a JSON value is read as, the values that
-- answers are written as, and the enumerations of src/utils/enums.hpp. A conversion that throws
-- returns `none`.
pub mod Requests
pub mod Answers
pub mod RoundTrip
