-- ===== src/Weather/Air.antt =====
-- crates/loa-weather/src/state.rs: what the weather daemon measured, and when it is news.
pub mod Shown
use loa.Base.{
  ℕ, ◌+◌, ◌%◌, ◌^◌, Bool, true, false, ◌||◌, Option, none, some, List, [], ◌∷◌, ltb, if◌then◌else◌,
}
use loa.Base.Floats.{Floats}
use loa.Wire.Pb.{Weather, no_weather}

pub record Air (F : Type 0) : Type 0 where
  pub temp_c : Option F
  pub hum_pct : Option F
  pub baro_c : Option F
  pub pressure_hpa : Option F
  pub ts : Option F
  pub count : ℕ  -- u32
  pub pub_sent : Option F
  pub hum_sent : Option F
  pub pres_sent : Option F

module _ {F : Type 0} where
  unfoldable pub empty : Air F
  empty = record {
    temp_c = none;
    hum_pct = none;
    baro_c = none;
    pressure_hpa = none;
    ts = none;
    count = 0;
    pub_sent = none;
    hum_sent = none;
    pres_sent = none;
  }

  -- Air::full
  unfoldable pub full : Air F → Weather F
  full a = record {
    temp_c = a.temp_c;
    hum_pct = a.hum_pct;
    ts = a.ts;
    count = some a.count;
    pressure_hpa = a.pressure_hpa;
    trend = none;
    series = [];
  }

  -- `if news { m.f = Some(v); self.f_sent = Some(v); }`
  abbrev pub sent_if : Bool → F → Option F → Option F
  sent_if true v old = some v
  sent_if false v old = old

module _ {F : Type 0} ⦃f : Floats F⦄ where
  unfoldable pub moved : F → F → Bool
  moved a b = f.le (f.lit 5 100) (f.abs (f.sub a b))

  -- `!sent.map(|s| !moved(v, s)).unwrap_or(false)`
  unfoldable pub is_news : F → Option F → Bool
  is_news v none = true
  is_news v (some s) = moved v s

  unfoldable pub dht : Air F → F → F → F → Air F × List (Weather F)
  dht a temp hum ts =
      let count = (a.count + 1) % 2 ^ 32 in
      let temp_news = is_news temp a.pub_sent in
      let hum_news = is_news hum a.hum_sent in
      let measured = record a { temp_c = some temp; hum_pct = some hum; count = count } in
      if temp_news || hum_news
      then (
        record measured {
          ts = some ts;
          pub_sent = sent_if temp_news temp a.pub_sent;
          hum_sent = sent_if hum_news hum a.hum_sent;
        },
        record no_weather {
          temp_c = sent_if temp_news temp none;
          hum_pct = sent_if hum_news hum none;
          ts = some ts;
          count = some count;
        }
            ∷ [],
      )
      else (measured, [])

  unfoldable pub baro : Air F → F → F → F → Air F × List (Weather F)
  baro a baro_temp hpa ts =
      let measured = record a { baro_c = some baro_temp; pressure_hpa = some hpa } in
      if is_news hpa a.pres_sent
      then (
        record measured { ts = some ts; pres_sent = some hpa },
        record no_weather {
          ts = some ts;
          count = if ltb 0 a.count then some a.count else none;
          pressure_hpa = some hpa;
        }
            ∷ [],
      )
      else (measured, [])
