-- ===== src/Communication/Session/Skew.antt =====
-- SynthesisSession.cpp: the correction of the clock's skew before a retry.
use edge_tts_cpp.Base.{◌<◌, ℕ, true, some, ◌∷◌, Bytes, pos, ◌≡◌, refl, ap, ◌∙◌}
use edge_tts_cpp.Common.Error.{Error, has_context}
use edge_tts_cpp.Communication.HttpDate.{parse_http_date}
use edge_tts_cpp.Communication.HttpDate.RoundTrip.{
  IsDayName, to_http_date, parse_http_date-to_http_date,
}
use edge_tts_cpp.Communication.Platform.{Float, Environment}
use edge_tts_cpp.Communication.Session.{SessionState, correct_skew}
use edge_tts_cpp.Communication.TokenProvider.{adjust_clock_skew}

module _ (f : Float) (env : Environment f) where
  abbrev now : SessionState f env → f.Double
  now s = (env.now_seconds s.world).0

  has_context-date :
      (e : Error) (c : ℕ) (w : Bytes) (n : ℕ)
      → e.context ≡ to_http_date (c ∷ w) n
      → has_context e ≡ true
  unfolding has_context to_http_date
  has_context-date e c w n q = rw (q, has_context) refl

  -- The skew behind the correction, when the error carries a date that is `n` seconds after the epoch.
  pub correct_skew-date :
      (e : Error) (c : ℕ) (w : Bytes) (n : ℕ) (s : SessionState f env)
      → IsDayName (c ∷ w)
      → n < 172800000000000
      → e.context ≡ to_http_date (c ∷ w) n
      → ((correct_skew f env e s).skew
          ≡ f.add s.skew (f.sub (f.of_integer (pos n)) (f.add (now s) s.skew)))
        × ((correct_skew f env e s).log ≡ s.log)
  unfolding correct_skew adjust_clock_skew
  correct_skew-date e c w n s h l q =
      let p : parse_http_date e.context ≡ some (pos n) =
        ap parse_http_date q ∙ parse_http_date-to_http_date c w n h l in
      rw (has_context-date e c w n q, correct_skew) (rw (p, correct_skew) (refl, refl))
