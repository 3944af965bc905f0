-- ===== src/Pwm/Validation/Gaps.antt =====
-- What the configuration checks let through: deadbands and a gamma that are NaN.
use kaivuriprokkis.Prelude.{◌≡◌, refl, Bool, true, false, List, [], ◌∷◌, ◌||◌, arith}
use kaivuriprokkis.Prelude.Int.{pos, ◌-ℤ◌}
use kaivuriprokkis.Float.{Float, IsNan}
use kaivuriprokkis.Pwm.Config.{ChannelConfig}
use kaivuriprokkis.Pwm.Validation.{Issue, UsedOutputs, raised, channel_checks}
use kaivuriprokkis.Pwm.Validation.Sound.{IsPassed, raised-eq-nil}
use Prim.Native.String.{String}

raised-IsPassed : (cs : List (Bool × Issue)) → IsPassed cs → raised cs ≡ []
unfolding raised
raised-IsPassed [] h = refl
raised-IsPassed ((true, e) ∷ cs) h = cc
raised-IsPassed ((false, e) ∷ cs) h = raised-IsPassed cs h.1

module _ {F : Type 0} ⦃fl : Float F⦄ where
  -- A channel that raises no issue raises none either when its deadbands and its gamma are replaced
  -- by NaN.
  pub nan_shaping_passes :
      (used : UsedOutputs) (name : String) (c : ChannelConfig F) (x : F)
      → IsNan x
      → raised (channel_checks used name c) ≡ []
      → raised (
          channel_checks used name
            (record c { deadband_us_pos = x; deadband_us_neg = x; gamma = x }))
        ≡ []
  unfolding channel_checks
  nan_shaping_passes used name c x nan h =
      let rng = fl.of_int (c.pulse_max -ℤ c.pulse_min) in
      let bound = fl.mul rng (fl.lit (pos 5) 1) in
      let outside : (fl.lt x (fl.lit (pos 0) 0) || fl.lt bound x) ≡ false =
        ground (arith, nan (fl.lit (pos 0) 0), nan bound) in
      let gamma : (fl.le x (fl.lit (pos 0) 0) || fl.lt (fl.lit (pos 5) 0) x) ≡ false =
        ground (arith, nan (fl.lit (pos 0) 0), nan (fl.lit (pos 5) 0)) in
      let (
        p0,
        (
          p1,
          (p2, (p3, (p4, (p5, (p6, (_, (_, (p9, (p10, (p11, (p12, (p13, (p14, (_, end)))))))))))))),
        ),
      ) =
        raised-eq-nil (channel_checks used name c) h in
      raised-IsPassed
        (channel_checks used name
          (record c { deadband_us_pos = x; deadband_us_neg = x; gamma = x }))
        (
          p0,
          (
            p1,
            (
              p2,
              (
                p3,
                (
                  p4,
                  (
                    p5,
                    (
                      p6,
                      (outside, (outside, (p9, (p10, (p11, (p12, (p13, (p14, (gamma, end))))))))),
                    ),
                  ),
                ),
              ),
            ),
          ),
        )
