-- ===== src/Pwm/Controller/Direct.antt =====
-- `update_named_us` keeps the invariant of `PWMController`.
use kaivuriprokkis.Prelude.{
  ◌≡◌, ◌≢◌, refl, sym, ap, ◌∙◌, Bool, Option, none, some, List, [], ◌∷◌, All, arith, length,
  length-set, Bool-cases, Option-cases, ◌⊎◌, inl, inr,
}
use kaivuriprokkis.Prelude.Int.{ℤ, eqb_ℤ, eqb_ℤ_iff}
use kaivuriprokkis.Prelude.Dict.{lookup, insert}
use kaivuriprokkis.Float.{Float, IsOrdered, clamp_bounds}
use kaivuriprokkis.Pwm.Config.{ChannelConfig, PumpConfig}
use kaivuriprokkis.Pwm.Validation.Sound.{
  IsOutput, IsValidChannel, IsFree, IsDistinct, IsValidConfig,
}
use kaivuriprokkis.Pwm.Writer.{I2c}
use kaivuriprokkis.Pwm.Pulse.Bounds.{Fits}
use kaivuriprokkis.Pwm.Controller.State.{
  Controller, slot, put_channel, is_toggled_off, clamp_channel_pulse_us,
}
use kaivuriprokkis.Pwm.Controller.Commands.{
  Commands, Selected, config_of, select_centers, select_pulse, select_pulses, store_pulses,
  apply_pulses, update_named_us, note_command, is_expired, is_held, flag_or,
}
use kaivuriprokkis.Pwm.Controller.Limits.{
  Configs, AreValid, AllFit, limits_le, at-put_self, at-put_ne,
}
use kaivuriprokkis.Pwm.Controller.Invariant.{
  PumpFits, AreWithin, IsSafe, write_updates-IsSafe, note_command-IsSafe,
}
use Prim.Native.String.{String}
use text.Mathlib.Text.{◌==◌ as str_eq}

All-zip {ℓ κ} :
    {A : Type ℓ} {P Q R : A → Type κ} (f : (a : A) → P a → Q a → R a) (xs : List A)
    → All P xs
    → All Q xs
    → All R xs
All-zip f [] p q = tt
All-zip f (x ∷ xs) p q = (f x p.0 q.0, All-zip f xs p.1 q.1)

module _ {F : Type 0} ⦃fl : Float F⦄ where
  -- The channel stands in the configuration.
  abbrev Has : ChannelConfig F → Configs F → Type 0
  Has c [] = ⊥
  Has c ((_, d) ∷ cs) = (d ≡ c) ⊎ Has c cs

  -- Any channel on the output accepts the pulse.
  abbrev Owned : Configs F → ℤ → F → Type 0
  Owned cs k pulse = All (λ e. e.1.output_channel ≡ k → Fits e.1 pulse) cs

  abbrev IsOffPump : Option (PumpConfig F) → ℤ → Type 0
  IsOffPump none k = Unit
  IsOffPump (some p) k = p.output_channel ≢ k

  -- What a selected pulse satisfies.
  abbrev IsPick : Configs F → Option (PumpConfig F) → ℤ × F → Type 0
  IsPick cs pump (k, pulse) = IsOutput k × Owned cs k pulse × IsOffPump pump k

  lookup-Has :
      (cs : Configs F) (name : String) (c : ChannelConfig F) → config_of cs name ≡ some c → Has c cs
  unfolding lookup
  lookup-Has [] name c e = cc
  lookup-Has ((n, d) ∷ cs) name c e = elim (Bool-cases (str_eq n name)) [
    | inl here ↦ inl (ground arith)
    | inr there ↦ inr (lookup-Has cs name c (rw there at e))
  ]

  Has-Free :
      (c : ChannelConfig F) (k : ℤ) (cs : Configs F) → Has c cs → IsFree k cs → c.output_channel ≢ k
  Has-Free c k [] h free = absurd h
  Has-Free c k ((n, d) ∷ cs) (inl e) free = λ q. free.0 (ap (λ x. x.output_channel) e ∙ q)
  Has-Free c k ((n, d) ∷ cs) (inr h) free = Has-Free c k cs h free.1

  Free-Owned : (k : ℤ) (pulse : F) (cs : Configs F) → IsFree k cs → Owned cs k pulse
  Free-Owned k pulse [] free = tt
  Free-Owned k pulse ((n, d) ∷ cs) free = ((λ e. absurd (free.0 e)), Free-Owned k pulse cs free.1)

  -- Outputs are distinct, so a pulse that fits a configured channel fits whatever is on its output.
  Has-Owned :
      (c : ChannelConfig F) (pulse : F) (cs : Configs F)
      → Has c cs
      → IsDistinct cs
      → Fits c pulse
      → Owned cs c.output_channel pulse
  Has-Owned c pulse [] h distinct fit = tt
  Has-Owned c pulse ((n, d) ∷ cs) (inl e) distinct fit =
      let same : d.output_channel ≡ c.output_channel = ap (λ x. x.output_channel) e in
      ((λ q. rw e fit), Free-Owned c.output_channel pulse cs (rw same at (distinct.0)))
  Has-Owned c pulse ((n, d) ∷ cs) (inr h) distinct fit = (
    (λ q. absurd (Has-Free c d.output_channel cs h distinct.0 (sym q))),
    Has-Owned c pulse cs h distinct.1 fit,
  )

  Has-valid : (c : ChannelConfig F) (cs : Configs F) → Has c cs → AreValid cs → IsValidChannel c
  Has-valid c [] h v = absurd h
  Has-valid c ((n, d) ∷ cs) (inl e) v = rw e at (v.0)
  Has-valid c ((n, d) ∷ cs) (inr h) v = Has-valid c cs h v.1

  off_pump :
      (cs : Configs F) (pump : Option (PumpConfig F)) (c : ChannelConfig F)
      → IsValidConfig cs pump
      → Has c cs
      → IsOffPump pump c.output_channel
  off_pump cs none c v h = tt
  off_pump cs (some p) c v h = λ e. Has-Free c p.output_channel cs h v.pump_for.1 (sym e)

  Has-IsPick :
      (cs : Configs F) (pump : Option (PumpConfig F)) (c : ChannelConfig F) (pulse : F)
      → IsValidConfig cs pump
      → Has c cs
      → Fits c pulse
      → IsPick cs pump (c.output_channel, pulse)
  Has-IsPick cs pump c pulse v h fit = (
    (Has-valid c cs h v.channels).output_fits,
    Has-Owned c pulse cs h v.distinct fit,
    off_pump cs pump c v h,
  )

  abbrev ArePicks : Configs F → Option (PumpConfig F) → Selected F → Type 0
  ArePicks cs pump = All (IsPick cs pump)

  insert-ArePicks :
      (cs : Configs F) (pump : Option (PumpConfig F)) (k : ℤ) (pulse : F) (sel : Selected F)
      → IsPick cs pump (k, pulse)
      → ArePicks cs pump sel
      → ArePicks cs pump (insert eqb_ℤ k pulse sel)
  unfolding insert
  insert-ArePicks cs pump k pulse [] p all = (p, tt)
  insert-ArePicks cs pump k pulse ((j, x) ∷ sel) p all = elim (Bool-cases (eqb_ℤ j k)) [
    | inl e ↦ let same = (eqb_ℤ_iff j k).0 e in rw e ((rw same p), all.1)
    | inr e ↦ rw e (all.0, insert-ArePicks cs pump k pulse sel p all.1)
  ]

  -- Every channel of a part of the configuration stands in the whole.
  abbrev ArePart : Configs F → Configs F → Type 0
  ArePart cs = All λ e. Has e.1 cs

  ArePart-cons :
      (e : String × ChannelConfig F) (cs part : Configs F) → ArePart cs part → ArePart (e ∷ cs) part
  ArePart-cons e cs [] h = tt
  ArePart-cons e cs (d ∷ part) h = (inr h.0, ArePart-cons e cs part h.1)

  ArePart-refl : (cs : Configs F) → ArePart cs cs
  ArePart-refl [] = tt
  ArePart-refl (e ∷ cs) = (inl refl, ArePart-cons e cs cs (ArePart-refl cs))

  select_centers-ArePicks :
      (toggle : Bool) (cs : Configs F) (pump : Option (PumpConfig F)) (part : Configs F)
      (sel : Selected F)
      → IsValidConfig cs pump
      → ArePart cs part
      → ArePicks cs pump sel
      → ArePicks cs pump (select_centers toggle part sel)
  unfolding select_centers
  select_centers-ArePicks toggle cs pump [] sel v h all = all
  select_centers-ArePicks toggle cs pump ((n, c) ∷ part) sel v h all =
      let valid = Has-valid c cs h.0 v.channels in
      let pick = Has-IsPick cs pump c c.center v h.0 (valid.center_ge_min, valid.center_le_max) in
      elim (Bool-cases (is_toggled_off toggle c)) [
        | inl off ↦ rw off (select_centers-ArePicks toggle cs pump part sel v h.1 all)
        | inr on ↦ rw on (
            select_centers-ArePicks toggle cs pump part _ v h.1
              (insert-ArePicks cs pump c.output_channel c.center sel pick all))
      ]

  put-Owned-AllFit :
      (cs : Configs F) (k : ℤ) (x : F) (pulses : List F)
      → AreValid cs
      → length pulses ≡ 16
      → IsOutput k
      → Owned cs k x
      → AllFit cs pulses
      → AllFit cs (put_channel pulses k x)
  put-Owned-AllFit [] k x pulses v size out owned fit = tt
  put-Owned-AllFit ((n, c) ∷ cs) k x pulses v size out owned fit =
      let rest = put-Owned-AllFit cs k x pulses v.1 size out owned.1 fit.1 in
      elim (Bool-cases (eqb_ℤ c.output_channel k)) [
        | inl e ↦
            let same = (eqb_ℤ_iff c.output_channel k).0 e in
            (rw (same, at-put_self pulses k x size out) (owned.0 same), rest)
        | inr e ↦
            let ne : k ≢ c.output_channel = λ q. cc (e, (eqb_ℤ_iff c.output_channel k).1 (sym q)) in
            (rw (at-put_ne pulses k c.output_channel x out v.0.output_fits ne) fit.0, rest)
      ]

  put_off-PumpFits :
      (cs : Configs F) (pump : Option (PumpConfig F)) (k : ℤ) (x : F) (pulses : List F)
      → IsValidConfig cs pump
      → IsOutput k
      → IsOffPump pump k
      → PumpFits pump pulses
      → PumpFits pump (put_channel pulses k x)
  put_off-PumpFits cs none k x pulses v out off fit = tt
  put_off-PumpFits cs (some p) k x pulses v out off fit =
      rw (at-put_ne pulses k p.output_channel x out v.pump_for.0.output_fits (λ e. off (sym e))) fit

  store_pulses-AreWithin :
      (cs : Configs F) (pump : Option (PumpConfig F)) (sel : Selected F) (pulses : List F)
      → IsValidConfig cs pump
      → ArePicks cs pump sel
      → AreWithin cs pump pulses
      → AreWithin cs pump (store_pulses sel pulses)
  unfolding store_pulses
  store_pulses-AreWithin cs pump [] pulses v all w = w
  store_pulses-AreWithin cs pump ((k, x) ∷ sel) pulses v all w =
      store_pulses-AreWithin cs pump sel (put_channel pulses k x) v all.1 record {
        size = length-set pulses (slot k) x ∙ w.size;
        channels_fit =
            put-Owned-AllFit cs k x pulses v.channels w.size all.0.0 all.0.1 w.channels_fit;
        pump_fits = put_off-PumpFits cs pump k x pulses v all.0.0 all.0.2 w.pump_fits;
      }

  select_pulse-none :
      (toggle : Bool) (value : Option F) (sel : Selected F)
      → select_pulse toggle none value sel ≡ sel
  unfolding select_pulse
  select_pulse-none toggle value sel = refl

  module _ (laws : IsOrdered F) where
    clamp_channel_pulse_us-Fits :
        (c : ChannelConfig F) (value : F)
        → IsValidChannel c
        → Fits c (clamp_channel_pulse_us c value)
    unfolding clamp_channel_pulse_us
    clamp_channel_pulse_us-Fits c value v = clamp_bounds laws _ _ value (limits_le laws c v)

    select_pulse-ArePicks :
        (toggle : Bool) (cs : Configs F) (pump : Option (PumpConfig F)) (c : ChannelConfig F)
        (value : Option F) (sel : Selected F)
        → IsValidConfig cs pump
        → Has c cs
        → ArePicks cs pump sel
        → ArePicks cs pump (select_pulse toggle (some c) value sel)
    unfolding select_pulse
    select_pulse-ArePicks toggle cs pump c none sel v h all = all
    select_pulse-ArePicks toggle cs pump c (some value) sel v h all =
        let fit = clamp_channel_pulse_us-Fits c value (Has-valid c cs h v.channels) in
        elim (Bool-cases (is_toggled_off toggle c)) [
          | inl off ↦ rw off all
          | inr on ↦
              rw on (
                insert-ArePicks cs pump c.output_channel _ sel (Has-IsPick cs pump c _ v h fit) all)
        ]

    select_pulses-ArePicks :
        (toggle : Bool) (cs : Configs F) (pump : Option (PumpConfig F)) (commands : Commands F)
        (sel : Selected F)
        → IsValidConfig cs pump
        → ArePicks cs pump sel
        → ArePicks cs pump (select_pulses toggle cs commands sel)
    unfolding select_pulses
    select_pulses-ArePicks toggle cs pump [] sel v all = all
    select_pulses-ArePicks toggle cs pump ((name, value) ∷ rest) sel v all =
        elim (Option-cases (config_of cs name)) [
          | inl missing ↦
              rw (missing, select_pulse-none toggle value sel)
                (select_pulses-ArePicks toggle cs pump rest sel v all)
          | inr (c, e) ↦ rw e (
              select_pulses-ArePicks toggle cs pump rest _ v
                (select_pulse-ArePicks toggle cs pump c value sel v (lookup-Has cs name c e) all))
        ]

module _ {F B : Type 0} ⦃fl : Float F⦄ (laws : IsOrdered F) where
  apply_pulses-IsSafe :
      (commands : Commands F) (unset : Option Bool) (c : Controller F B)
      → IsSafe c
      → IsSafe (apply_pulses commands unset c).0
  unfolding apply_pulses
  apply_pulses-IsSafe commands unset c s =
      let v = s.config in
      let centers =
        select_centers-ArePicks c.toggle_channels c.channel_configs c.pump_config c.channel_configs
          [] v (ArePart-refl c.channel_configs) tt in
      let picks = λ (start : Selected F) (h : ArePicks c.channel_configs c.pump_config start).
        store_pulses-AreWithin c.channel_configs c.pump_config _ c.current_pulse_us v
          (select_pulses-ArePicks laws c.toggle_channels c.channel_configs c.pump_config commands
            start v h)
          s.within in
      elim (Bool-cases (flag_or unset c.default_unset_to_zero)) [
        | inl e ↦ rw e (record { config = v; within = picks _ centers })
        | inr e ↦ rw e (record { config = v; within = picks [] tt })
      ]

  module _ ⦃bus : I2c B⦄ where
    -- `update_named_us` keeps the invariant on every branch, whatever the pulse widths (NaN and
    -- values that are no numbers included), and whether or not the bus fails.
    pub update_named_us-IsSafe :
        (commands : Commands F) (unset : Option Bool) (command_ts : Option F) (now_mono : F)
        (c : Controller F B)
        → IsSafe c
        → IsSafe (update_named_us commands unset command_ts now_mono c).0
    unfolding update_named_us
    update_named_us-IsSafe commands unset command_ts now_mono c s =
        let noted = note_command-IsSafe laws now_mono c s in
        let applied = apply_pulses commands unset (note_command now_mono c) in
        let written =
          write_updates-IsSafe laws applied.0 applied.1
            (apply_pulses-IsSafe commands unset _ noted) in
        elim (Bool-cases (is_expired command_ts now_mono c)) [
          | inl e ↦ rw e s
          | inr e ↦ elim (Bool-cases (is_held (note_command now_mono c))) [
            | inl h ↦ rw (e, h) noted
            | inr h ↦ rw (e, h) written
          ]
        ]
