-- ===== src/Pwm/Controller/Nan.antt =====
-- A command that is NaN, in `update_named` and in `update_named_us`.
use kaivuriprokkis.Prelude.{
  ◌≡◌, refl, ◌∙◌, Bool, true, Option, some, List, [], ◌∷◌, Bool-cases, inl, inr, length, length-set,
  if◌then◌else◌,
}
use kaivuriprokkis.Float.{Float, IsNan, nought, unit, minus_unit, clamp_nan}
use kaivuriprokkis.Pwm.Config.{ChannelConfig}
use kaivuriprokkis.Pwm.Validation.Sound.{IsOutput}
use kaivuriprokkis.Pwm.Controller.State.{
  Controller, at_channel, put_channel, slot, clamp_channel_pulse_us,
}
use kaivuriprokkis.Pwm.Controller.Commands.{
  config_of, zero_values, store_values, normalised, apply_commands, flag_or,
}
use kaivuriprokkis.Pwm.Controller.Limits.{Configs, at-put_self}
use Prim.Native.String.{String}

module _ {F : Type 0} ⦃fl : Float F⦄ where
  length-zero_values : (cs : Configs F) (xs : List F) → length (zero_values cs xs) ≡ length xs
  unfolding zero_values
  length-zero_values [] xs = refl
  length-zero_values ((n, c) ∷ cs) xs =
      length-zero_values cs (put_channel xs c.output_channel nought)
      ∙ length-set xs (slot c.output_channel) nought

  -- A NaN pulse width becomes the channel's upper limit, where the limits are in order.
  nan_pulse_is_max :
      (c : ChannelConfig F) (x : F)
      → IsNan x
      → fl.lt (fl.of_int c.pulse_min) (fl.of_int c.pulse_max) ≡ true
      → clamp_channel_pulse_us c x ≡ fl.of_int c.pulse_max
  unfolding clamp_channel_pulse_us
  nan_pulse_is_max c x nan order =
      clamp_nan (fl.of_int c.pulse_min) (fl.of_int c.pulse_max) x order nan

module _ {F B : Type 0} ⦃fl : Float F⦄ where
  -- A NaN command for a configured channel is stored as 1.0, the full command, whatever the channel
  -- held before. (`min(1.0, nan)` is 1.0.)
  pub nan_command_is_full :
      (name : String) (x : F) (unset : Option Bool) (now : F) (c : Controller F B)
      (cfg : ChannelConfig F)
      → IsNan x
      → fl.lt minus_unit unit ≡ true
      → config_of c.channel_configs name ≡ some cfg
      → IsOutput cfg.output_channel
      → length c.values ≡ 16
      → at_channel (apply_commands ((name, some x) ∷ []) unset now c).0.values cfg.output_channel
        ≡ unit
  unfolding apply_commands store_values
  nan_command_is_full name x unset now c cfg nan order found out size =
      let start =
        if flag_or unset c.default_unset_to_zero
        then zero_values c.channel_configs c.values
        else c.values in
      let sized : length start ≡ 16 = elim (Bool-cases (flag_or unset c.default_unset_to_zero)) [
        | inl e ↦ rw e (length-zero_values c.channel_configs c.values ∙ size)
        | inr e ↦ rw e size
      ] in
      rw found (
        at-put_self start cfg.output_channel (normalised x) sized out
        ∙ clamp_nan minus_unit unit x order nan)
