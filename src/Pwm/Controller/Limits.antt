-- ===== src/Pwm/Controller/Limits.antt =====
-- The pulses of the configured channels stay within their limits: the lists that the loops write.
use kaivuriprokkis.Prelude.{
  ◌<◌, ◌≡◌, ◌≢◌, refl, sym, ◌∙◌, Bool, true, List, [], ◌∷◌, All, arith, length, length-set,
  get_or-set_self, get_or-set_ne, Bool-cases, inl, inr,
}
use kaivuriprokkis.Prelude.Int.{ℤ}
use kaivuriprokkis.Prelude.Dict.{Dict}
use kaivuriprokkis.Float.{Float, ◌≼◌, IsOrdered, nought}
use kaivuriprokkis.Pwm.Config.{ChannelConfig}
use kaivuriprokkis.Pwm.Validation.Sound.{IsOutput, IsValidChannel, IsFree, IsDistinct}
use kaivuriprokkis.Pwm.Pulse.{pulse_from_value}
use kaivuriprokkis.Pwm.Pulse.Bounds.{Fits, pulse_from_value_bounds}
use kaivuriprokkis.Pwm.Controller.State.{slot, at_channel, put_channel, is_toggled_off}
use kaivuriprokkis.Pwm.Controller.Commands.{Collected, collect_one, collect_channel_counts}
use Prim.Native.String.{String}

slot-lt : (k : ℤ) → IsOutput k → slot k < 16
slot-lt k h = ground arith

slot-ne : (j k : ℤ) → IsOutput j → IsOutput k → j ≢ k → slot j ≢ slot k
slot-ne j k h i ne = ground arith

abbrev pub Configs : Type 0 → Type 0
Configs F = Dict String (ChannelConfig F)

module _ {F : Type 0} ⦃fl : Float F⦄ where
  open fl use {of_int}

  abbrev pub AreValid : Configs F → Type 0
  AreValid = All λ e. IsValidChannel e.1

  -- Every channel's pulse is within that channel's limits.
  abbrev pub AllFit : Configs F → List F → Type 0
  AllFit cs pulses = All (λ e. Fits e.1 (at_channel pulses e.1.output_channel)) cs

  pub limits_le :
      (laws : IsOrdered F) (c : ChannelConfig F)
      → IsValidChannel c
      → of_int c.pulse_min ≼ of_int c.pulse_max
  limits_le laws c v = laws.le_trans _ _ _ v.center_ge_min v.center_le_max

  pub at-put_self :
      (pulses : List F) (k : ℤ) (v : F)
      → length pulses ≡ 16
      → IsOutput k
      → at_channel (put_channel pulses k v) k ≡ v
  at-put_self pulses k v size out =
      get_or-set_self pulses (slot k) v nought (rw size (slot-lt k out))

  pub at-put_ne :
      (pulses : List F) (j k : ℤ) (v : F)
      → IsOutput j
      → IsOutput k
      → j ≢ k
      → at_channel (put_channel pulses j v) k ≡ at_channel pulses k
  at-put_ne pulses j k v h i ne =
      get_or-set_ne pulses (slot j) (slot k) v nought (slot-ne j k h i ne)

  pub put_channel-AllFit :
      (cs : Configs F) (pulses : List F) (k : ℤ) (v : F)
      → AreValid cs
      → IsOutput k
      → IsFree k cs
      → AllFit cs pulses
      → AllFit cs (put_channel pulses k v)
  put_channel-AllFit [] pulses k v valid out free fit = tt
  put_channel-AllFit ((n, c) ∷ cs) pulses k v valid out free fit =
      let same =
        at-put_ne pulses k c.output_channel v out valid.0.output_fits (λ e. free.0 (sym e)) in
      (rw same fit.0, put_channel-AllFit cs pulses k v valid.1 out free.1 fit.1)

  module _ (laws : IsOrdered F) (toggle : Bool) (xs : List F) (period now : F) where
    abbrev one : ChannelConfig F → Collected F → Collected F
    one = collect_one toggle xs period now

    abbrev rounds : Configs F → Collected F → Collected F
    rounds = collect_channel_counts toggle xs period now

    length-one :
        (c : ChannelConfig F) (acc : Collected F) → length (one c acc).pulses ≡ length acc.pulses
    unfolding collect_one
    length-one c acc = ground (
      arith,
      length-set acc.pulses (slot c.output_channel)
          (pulse_from_value c (at_channel xs c.output_channel) now true acc.table).0,
    )

    pub length-rounds :
        (cs : Configs F) (acc : Collected F) → length (rounds cs acc).pulses ≡ length acc.pulses
    unfolding collect_channel_counts
    length-rounds [] acc = refl
    length-rounds ((n, c) ∷ cs) acc = length-rounds cs (one c acc) ∙ length-one c acc

    -- A round leaves the other channels alone.
    one_frame :
        (c : ChannelConfig F) (acc : Collected F) (k : ℤ)
        → IsValidChannel c
        → IsOutput k
        → c.output_channel ≢ k
        → at_channel (one c acc).pulses k ≡ at_channel acc.pulses k
    unfolding collect_one
    one_frame c acc k valid out ne =
        let pulse = (pulse_from_value c (at_channel xs c.output_channel) now true acc.table).0 in
        elim (Bool-cases (is_toggled_off toggle c)) [
          | inl off ↦ rw off refl
          | inr on ↦ rw on (at-put_ne acc.pulses c.output_channel k pulse valid.output_fits out ne)
        ]

    pub rounds_frame :
        (cs : Configs F) (acc : Collected F) (k : ℤ)
        → AreValid cs
        → IsOutput k
        → IsFree k cs
        → at_channel (rounds cs acc).pulses k ≡ at_channel acc.pulses k
    unfolding collect_channel_counts
    rounds_frame [] acc k valid out free = refl
    rounds_frame ((n, c) ∷ cs) acc k valid out free =
        rounds_frame cs (one c acc) k valid.1 out free.1 ∙ one_frame c acc k valid.0 out free.0

    one-Fits :
        (c : ChannelConfig F) (acc : Collected F)
        → IsValidChannel c
        → length acc.pulses ≡ 16
        → Fits c (at_channel acc.pulses c.output_channel)
        → Fits c (at_channel (one c acc).pulses c.output_channel)
    unfolding collect_one
    one-Fits c acc valid size fit =
        let pulse = pulse_from_value c (at_channel xs c.output_channel) now true acc.table in
        elim (Bool-cases (is_toggled_off toggle c)) [
          | inl off ↦ rw off fit
          | inr on ↦
              rw (on, at-put_self acc.pulses c.output_channel pulse.0 size valid.output_fits)
                (pulse_from_value_bounds laws c _ now true acc.table (limits_le laws c valid))
        ]

    one-AllFit :
        (c : ChannelConfig F) (cs : Configs F) (acc : Collected F)
        → IsValidChannel c
        → AreValid cs
        → IsFree c.output_channel cs
        → AllFit cs acc.pulses
        → AllFit cs (one c acc).pulses
    unfolding collect_one
    one-AllFit c cs acc valid all free fit = elim (Bool-cases (is_toggled_off toggle c)) [
      | inl off ↦ rw off fit
      | inr on ↦ rw on (put_channel-AllFit cs acc.pulses _ _ all valid.output_fits free fit)
    ]

    pub rounds-AllFit :
        (cs : Configs F) (acc : Collected F)
        → AreValid cs
        → IsDistinct cs
        → length acc.pulses ≡ 16
        → AllFit cs acc.pulses
        → AllFit cs (rounds cs acc).pulses
    unfolding collect_channel_counts
    rounds-AllFit [] acc valid distinct size fit = tt
    rounds-AllFit ((n, c) ∷ cs) acc valid distinct size fit =
        let next = one-AllFit c cs acc valid.0 valid.1 distinct.0 fit.1 in
        let kept =
          rounds_frame cs (one c acc) c.output_channel valid.1 valid.0.output_fits distinct.0 in
        (
          rw kept (one-Fits c acc valid.0 size fit.0),
          rounds-AllFit cs (one c acc) valid.1 distinct.1 (length-one c acc ∙ size) next,
        )
