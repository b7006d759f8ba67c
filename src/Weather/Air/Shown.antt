-- ===== src/Weather/Air/Shown.antt =====
-- What the cortex shows of the air: the partial messages of crates/loa-weather/src/state.rs, merged
-- by crates/loa-cortex/src/state.rs.
use loa.Base.{
  ◌≡◌, refl, ◌⊎◌, inl, inr, true, false, Option, none, some, List, [], ◌∷◌, arith, Bool-cases,
  subst₂, sym,
}
use loa.Base.Floats.{Floats}
use loa.Wire.Pb.{Weather}
use loa.Weather.Air.{Air, empty, moved, is_news, dht, baro, sent_if}
use loa.Cortex.{Cortex, new}
use loa.Cortex.Merge.{merge_weather, push_baro}

-- One thing that the daemon's tick measures.
pub data Measured (F : Type 0) : Type 0 where
  frame : F → F → F → Measured F  -- temperature, humidity, time
  pressure : F → F → F → Measured F  -- the chip's own temperature, pressure, time

module _ {F : Type 0} ⦃f : Floats F⦄ where
  unfoldable pub measure : Air F → Measured F → Air F × List (Weather F)
  measure a (frame temp hum ts) = dht a temp hum ts
  measure a (pressure temp hpa ts) = baro a temp hpa ts

  unfoldable pub merge_all : Cortex F → List (Weather F) → Cortex F
  merge_all cx [] = cx
  merge_all cx (w ∷ ws) = merge_all (merge_weather cx w) ws

  -- The daemon and the cortex after a list of measurements.
  unfoldable pub both : Air F × Cortex F → List (Measured F) → Air F × Cortex F
  unfolding merge_all measure
  both s [] = s
  both (a, cx) (m ∷ ms) = both ((measure a m).0, merge_all cx (measure a m).1) ms

  -- A number that was measured is shown as it was, or as one that it has not moved from; what was
  -- never measured is not shown.
  abbrev pub IsShown : Option F → Option F → Type 0
  IsShown none shown = shown ≡ none
  IsShown (some v) shown = (shown ≡ some v) ⊎ ((s : F) × (shown ≡ some s) × (moved v s ≡ false))

  pub record Shows (a : Air F) (cx : Cortex F) : Type 0 where
    pub temp_sent : cx.st.temp_c ≡ a.pub_sent
    pub hum_sent : cx.st.hum_pct ≡ a.hum_sent
    pub pres_sent : cx.st.pressure_hpa ≡ a.pres_sent
    pub temp : IsShown a.temp_c a.pub_sent
    pub hum : IsShown a.hum_pct a.hum_sent
    pub pres : IsShown a.pressure_hpa a.pres_sent

  news_or_IsShown :
      (v : F) (sent : Option F)
      → (is_news v sent ≡ true) ⊎ ((is_news v sent ≡ false) × IsShown (some v) sent)
  unfolding is_news
  news_or_IsShown v none = inl refl
  news_or_IsShown v (some s) = elim (Bool-cases (moved v s)) [
    | inl e ↦ inl e
    | inr e ↦ inr (e, inr (s, refl, e))
  ]

  IsShown-again : (v : F) (sent : Option F) → IsShown (some v) (sent_if (is_news v sent) v sent)
  IsShown-again v sent = elim (news_or_IsShown v sent) [
    | inl e ↦ rw e (inl refl)
    | inr (e, h) ↦ rw e h
  ]

  dht-sent :
      (a : Air F) (temp hum ts : F)
      → ((dht a temp hum ts).0.pub_sent ≡ sent_if (is_news temp a.pub_sent) temp a.pub_sent)
        × ((dht a temp hum ts).0.hum_sent ≡ sent_if (is_news hum a.hum_sent) hum a.hum_sent)
        × ((dht a temp hum ts).0.temp_c ≡ some temp)
        × ((dht a temp hum ts).0.hum_pct ≡ some hum)
        × ((dht a temp hum ts).0.pressure_hpa ≡ a.pressure_hpa)
        × ((dht a temp hum ts).0.pres_sent ≡ a.pres_sent)
  unfolding dht
  dht-sent a temp hum ts = ground arith

  baro-sent :
      (a : Air F) (temp hpa ts : F)
      → ((baro a temp hpa ts).0.pres_sent ≡ sent_if (is_news hpa a.pres_sent) hpa a.pres_sent)
        × ((baro a temp hpa ts).0.pressure_hpa ≡ some hpa)
        × ((baro a temp hpa ts).0.temp_c ≡ a.temp_c)
        × ((baro a temp hpa ts).0.hum_pct ≡ a.hum_pct)
        × ((baro a temp hpa ts).0.pub_sent ≡ a.pub_sent)
        × ((baro a temp hpa ts).0.hum_sent ≡ a.hum_sent)
  unfolding baro
  baro-sent a temp hpa ts = ground arith

  IsShown-along : {v v' s s' : Option F} → v ≡ v' → s ≡ s' → IsShown v' s' → IsShown v s
  IsShown-along e d = subst₂ IsShown (sym e) (sym d)

  measure-Shows :
      (a : Air F) (cx : Cortex F) (m : Measured F)
      → Shows a cx
      → Shows (measure a m).0 (merge_all cx (measure a m).1)
  unfolding measure
  measure-Shows a cx (frame temp hum ts) h =
      let (ps, hs, pt, ph, pp, pps) = dht-sent a temp hum ts in
      record {
        temp_sent = unfold dht merge_all merge_weather in ground (arith, h.temp_sent);
        hum_sent = unfold dht merge_all merge_weather in ground (arith, h.hum_sent);
        pres_sent = unfold dht merge_all merge_weather in ground (arith, h.pres_sent);
        temp = IsShown-along pt ps (IsShown-again temp a.pub_sent);
        hum = IsShown-along ph hs (IsShown-again hum a.hum_sent);
        pres = IsShown-along pp pps h.pres;
      }
  measure-Shows a cx (pressure temp hpa ts) h =
      let (ps, pp, pt, ph, pu, phs) = baro-sent a temp hpa ts in
      record {
        temp_sent = unfold baro merge_all merge_weather push_baro in ground (arith, h.temp_sent);
        hum_sent = unfold baro merge_all merge_weather push_baro in ground (arith, h.hum_sent);
        pres_sent = unfold baro merge_all merge_weather push_baro in ground (arith, h.pres_sent);
        temp = IsShown-along pt pu h.temp;
        hum = IsShown-along ph phs h.hum;
        pres = IsShown-along pp ps (IsShown-again hpa a.pres_sent);
      }

  both-Shows :
      (a : Air F) (cx : Cortex F) (ms : List (Measured F))
      → Shows a cx
      → Shows (both (a, cx) ms).0 (both (a, cx) ms).1
  unfolding both
  both-Shows a cx [] h = h
  both-Shows a cx (m ∷ ms) h =
      both-Shows (measure a m).0 (merge_all cx (measure a m).1) ms (measure-Shows a cx m h)

  -- From a fresh daemon and a fresh cortex, after any measurements: what the cortex shows of the
  -- temperature, of the humidity and of the pressure is what was measured last, or a number that
  -- it has not moved from; what was never measured is not shown.
  pub both-IsShown :
      (ms : List (Measured F))
      → let (a, cx) = both (empty, new) ms in
        IsShown a.temp_c cx.st.temp_c
        × IsShown a.hum_pct cx.st.hum_pct
        × IsShown a.pressure_hpa cx.st.pressure_hpa
  both-IsShown ms =
      let h = both-Shows empty new ms (
        unfold empty new in
        record {
          temp_sent = refl;
          hum_sent = refl;
          pres_sent = refl;
          temp = refl;
          hum = refl;
          pres = refl;
        }) in
      (
        IsShown-along refl h.temp_sent h.temp,
        IsShown-along refl h.hum_sent h.hum,
        IsShown-along refl h.pres_sent h.pres,
      )
