-- ===== src/Std.antt =====
-- What the packages use of the Go standard library: decimal numbers, splitting and sorting of
-- strings, and the heart-beat patterns of package regexp.
pub mod Strconv
pub mod Strings
