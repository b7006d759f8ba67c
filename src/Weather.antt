-- ===== src/Weather.antt =====
-- The weather daemon (crates/loa-weather): the DHT's decoder, the barometer's maths, and the merged
-- air that decides what is news.
pub mod Dht
pub mod Baro
pub mod Air
mod Examples
