-- ===== src/Operator/Supervisor/Stops.antt =====
-- How the run of a `Supervisor` ends.
use kaivuriprokkis.Prelude.{
  ℕ, ◌≡◌, ◌∙◌, sym, ap, refl, Bool, true, false, some, List, [], ◌∷◌, arith, if◌then◌else◌, ◌⊎◌,
  inl, inr, ◌+◌,
}
use mathlib.Core.Path.{subst}
use mathlib.Core.Bool.{true≢false}
use kaivuriprokkis.Float.{Float}
use kaivuriprokkis.Operator.Supervisor.{
  Kind, Reason, disarm, Supervisor, offer, refusal, drop_plan, stop, send, set_mode,
}
use kaivuriprokkis.Operator.Supervisor.Round.{tick, shutdown}
use kaivuriprokkis.Operator.Supervisor.Current.{
  Call, call, calls, offers, drops, stops, rounds, late, shuts, modes, arms,
}

module _ {F : Type 0} ⦃fl : Float F⦄ where
  -- Nothing was sent and the connection is as it was, or it was open and is shut, after at most a
  -- DISARM.
  abbrev pub IsEnded : Supervisor F → Supervisor F → Type 0
  IsEnded s s' =
      ((s'.closed ≡ s.closed) × (s'.out ≡ s.out))
      ⊎ ((s.closed ≡ false)
          × ((s'.closed ≡ true)
              × ((s'.connected ≡ false)
                  × ((s'.out ≡ s.out) ⊎ ((n : ℕ) × (s'.out ≡ (n, disarm) ∷ s.out))))))

  abbrev pub IsFinal : Supervisor F → Supervisor F → Type 0
  IsFinal s s' = (s'.stopped ≡ s.stopped) × ((s'.halted ≡ true) × IsEnded s s')

  -- The two runs of `shutdown`.
  shutdown-cases :
      (link : Bool) (s : Supervisor F)
      → ((s.closed ≡ true)
          × (((shutdown link s).closed ≡ s.closed)
              × (((shutdown link s).out ≡ s.out)
                  × (((shutdown link s).connected ≡ s.connected)
                      × ((shutdown link s).stopped ≡ s.stopped)
                      × ((shutdown link s).halted ≡ s.halted)))))
        ⊎ ((s.closed ≡ false)
            × (((shutdown link s).closed ≡ true)
                × (((shutdown link s).connected ≡ false)
                    × ((((shutdown link s).out ≡ s.out)
                          ⊎ ((shutdown link s).out ≡ (s.sequence + 1, disarm) ∷ s.out))
                        × ((shutdown link s).stopped ≡ s.stopped)
                        × ((shutdown link s).halted ≡ s.halted)))))
  unfolding shutdown send
  shutdown-cases link s = ground arith

  shutdown-IsFinal :
      (link : Bool) (s0 s : Supervisor F) → IsFinal s0 s → IsFinal s0 (shutdown link s)
  shutdown-IsFinal link s0 s (st, (hl, ended)) = elim (shutdown-cases link s) [
    | inl (_, (c', (o', (n', st', hl')))) ↦ (
      st' ∙ st,
      (
        hl' ∙ hl,
        elim ended [
          | inl (c, o) ↦ inl (c' ∙ c, o' ∙ o)
          | inr (cf, (ct, (cn, d))) ↦ inr (
            cf,
            (c' ∙ ct, (n' ∙ cn, elim d [ inl o ↦ inl (o' ∙ o) | inr (n, o) ↦ inr (n, o' ∙ o) ])),
          )
        ],
      ),
    )
    | inr (was_open, (c', (n', (d', st', hl')))) ↦ (
      st' ∙ st,
      (
        hl' ∙ hl,
        elim ended [
          | inl (c, o) ↦ inr (
            sym c ∙ was_open,
            (
              c',
              (
                n',
                elim d' [
                  | inl o' ↦ inl (o' ∙ o)
                  | inr o' ↦ inr (s.sequence + 1, o' ∙ ap (λ x. (s.sequence + 1, disarm) ∷ x) o)
                ],
              ),
            ),
          )
          | inr (cf, (ct, _)) ↦ absurd (true≢false (sym ct ∙ was_open))
        ],
      ),
    )
  ]

  -- None is a call of `arm`.
  abbrev pub AreUnarmed : List (Call F) → Type 0
  AreUnarmed [] = Unit
  AreUnarmed (arms _ _ _ _ ∷ cs) = ⊥
  AreUnarmed (_ ∷ cs) = AreUnarmed cs

  stop-IsFinal :
      (r : Reason) (k : Kind) (s0 s : Supervisor F) (why : Reason × Kind)
      → s0.stopped ≡ some why
      → IsFinal s0 s
      → IsFinal s0 (stop r k s)
  unfolding stop
  stop-IsFinal r k s0 s why e h = ground arith

  call-IsFinal :
      (c : Call F) (s0 s : Supervisor F) (why : Reason × Kind)
      → AreUnarmed (c ∷ [])
      → s0.stopped ≡ some why
      → IsFinal s0 s
      → IsFinal s0 (call c s)
  unfolding call offer refusal drop_plan stop set_mode
  call-IsFinal (offers rows t0 obs) s0 s why u e h = ground arith
  call-IsFinal (drops clock) s0 s why u e h = h
  call-IsFinal (stops r k) s0 s why u e h = stop-IsFinal r k s0 s why e h
  call-IsFinal (rounds i) s0 s why u e h =
      subst (λ b. IsFinal s0 (if b then shutdown i.link s else tick i s)) (sym h.1.0)
        (shutdown-IsFinal i.link s0 s h)
  call-IsFinal (late r k i) s0 s why u e h =
      let s' = stop r k s in
      subst (λ b. IsFinal s0 (if b then shutdown i.link s' else tick i s')) (sym h.1.0)
        (shutdown-IsFinal i.link s0 s' (stop-IsFinal r k s0 s why e h))
  call-IsFinal (shuts link) s0 s why u e h = shutdown-IsFinal link s0 s h
  call-IsFinal (modes m clock) s0 s why u e h = h
  call-IsFinal (arms link reply clock tries) s0 s why u e h = elim u [ ]

  AreUnarmed-both :
      (c : Call F) (cs : List (Call F)) → AreUnarmed (c ∷ cs) → AreUnarmed (c ∷ []) × AreUnarmed cs
  AreUnarmed-both (offers _ _ _) cs u = (tt, u)
  AreUnarmed-both (drops _) cs u = (tt, u)
  AreUnarmed-both (stops _ _) cs u = (tt, u)
  AreUnarmed-both (rounds _) cs u = (tt, u)
  AreUnarmed-both (late _ _ _) cs u = (tt, u)
  AreUnarmed-both (shuts _) cs u = (tt, u)
  AreUnarmed-both (modes _ _) cs u = (tt, u)
  AreUnarmed-both (arms _ _ _ _) cs u = elim u [ ]

  calls-IsFinal_from :
      (cs : List (Call F)) (s0 s : Supervisor F) (why : Reason × Kind)
      → AreUnarmed cs
      → s0.stopped ≡ some why
      → IsFinal s0 s
      → IsFinal s0 (calls cs s)
  unfolding calls
  calls-IsFinal_from [] s0 s why u e h = h
  calls-IsFinal_from (c ∷ cs) s0 s why u e h =
      let (first, rest) = AreUnarmed-both c cs u in
      calls-IsFinal_from cs s0 (call c s) why rest e (call-IsFinal c s0 s why first e h)

  -- Once a run is stopped, and a round that was under way has ended, whatever is called but `arm`, also
  -- a later `stop`: it stays stopped for its first reason, and nothing more is sent but at most a single
  -- DISARM as the connection is shut.
  pub calls-IsFinal :
      (cs : List (Call F)) (s : Supervisor F) (why : Reason × Kind)
      → AreUnarmed cs
      → s.stopped ≡ some why
      → s.halted ≡ true
      → IsFinal s (calls cs s)
  calls-IsFinal cs s why u e h = calls-IsFinal_from cs s s why u e (refl, (h, inl (refl, refl)))
