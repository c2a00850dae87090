-- ===== src/Resp3.antt =====
-- The RESP3 codec, written twice in the repository: enums/tagged_union/resp3.go and
-- enums/sealed_interface/resp3.go. `Outcome`, `Reader` and `Double` hold what both files contain
-- word for word; `Sealed` and `Tagged` are the two packages.
pub mod Outcome
pub mod Reader
pub mod Double
pub mod Sealed
pub mod Tagged
pub mod Embed
pub mod RoundTrip
pub mod Total
pub mod Streaming
pub mod Cut
pub mod Agree
pub mod Codec
