-- ===== src/Pack.antt =====
-- src/pack: the delta list, the packed instructions, and the machine that unpacks them.
pub mod DeltaList
pub mod Tag
pub mod Encode
pub mod Machine
pub mod Shifted
pub mod RoundTrip
