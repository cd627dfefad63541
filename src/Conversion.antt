-- ===== src/Conversion.antt =====
-- type_conversion.rs: the coordinator's texts read into values.
pub mod Temporal
pub mod RoundTrip
pub mod Fractions
pub mod TypeName
pub mod TypeParams
pub mod TypeText
pub mod TypeReports
pub mod Offsets
pub mod DayBounds
pub mod ZoneShift
pub mod Nested
pub mod Losses
pub mod Zones
pub mod OwnZone
pub mod SessionOffset
pub mod Values
pub mod Typed
pub mod Typing
pub mod PlainTyping
pub mod TypedValues
pub mod Reported
pub mod Agreement
mod Tests
pub mod ValueTests
