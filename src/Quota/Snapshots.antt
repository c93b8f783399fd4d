-- ===== src/Quota/Snapshots.antt =====
-- What a snapshot grants (QuotaManager.snapshot and authorize in worker/src/services/quota.ts).
use flightnotify.Time.{Moment}
use flightnotify.Repo.Usage.{Store}
use flightnotify.Quota.{
  QuotaConfig, RunTrigger, reserve_eligible, QuotaSnapshot, SpendDecision, snapshot, authorize,
  decide, min_known,
}
use flightnotify.Common.{
  ℕ, ◌+◌, ◌-◌, ◌≤◌, ◌<◌, ◌≡◌, refl, ◌⊎◌, true, false, arith, Option, none, some,
}

abbrev pub AtMostKnown : ℕ → Option ℕ → Type 0
AtMostKnown n none = Unit {0}
AtMostKnown n (some x) = n ≤ x

-- What a decision of `authorize` may rely on.
pub record IsWithin (trigger : RunTrigger) (wanted : ℕ) (snap : QuotaSnapshot) (d : SpendDecision)
    : Type 0 where
  pub not_more_than_wanted : d.granted ≤ wanted
  pub within_month : (d.granted ≡ 0) ⊎ (snap.effective_used + d.granted ≤ snap.monthly_limit)
  pub within_provider : AtMostKnown d.granted snap.provider_left
  pub within_hour : d.granted ≤ snap.hourly_remaining
  pub keeps_reserve :
      reserve_eligible trigger ≡ false
      → (d.granted ≡ 0) ⊎ (snap.effective_used + d.granted + snap.reserve ≤ snap.monthly_limit)
  pub refused_means_none : d.allowed ≡ false → d.granted ≡ 0
  pub allowed_means_some : d.allowed ≡ true → 0 < wanted → 0 < d.granted

-- The figures of a snapshot hold together.
record IsConsistent (snap : QuotaSnapshot) : Type 0 where
  hard_eq :
      snap.remaining_hard ≡ min_known (snap.monthly_limit - snap.effective_used) snap.provider_left
  safe_eq : snap.remaining_safe ≡ snap.remaining_hard - snap.reserve

snapshot-IsConsistent :
    (config : QuotaConfig) (now : Moment) (s : Store) → IsConsistent (snapshot config now s).0
unfolding snapshot
snapshot-IsConsistent config now s = record { hard_eq = refl; safe_eq = refl }

decide-IsWithin :
    (wanted : ℕ) (trigger : RunTrigger) (snap : QuotaSnapshot)
    → IsConsistent snap
    → IsWithin trigger wanted snap (decide wanted trigger snap)
unfolding decide
decide-IsWithin wanted trigger snap c = record {
  not_more_than_wanted = ground arith;
  within_month = ground arith;
  within_provider = ground arith;
  within_hour = ground arith;
  keeps_reserve = λ automation. ground arith;
  refused_means_none = λ h. ground arith;
  allowed_means_some = λ h some_wanted. ground arith;
}

-- Whatever is asked for, `authorize` grants no more than what is wanted, what is left of the
-- month's budget, what the provider says is left and what is left of the hour; to a trigger that may not use the reserve it leaves the whole reserve; a refusal grants nothing, and a permission grants something if something was wanted.
pub authorize-IsWithin :
    (config : QuotaConfig) (wanted : ℕ) (trigger : RunTrigger) (now : Moment) (s : Store)
    → IsWithin trigger wanted
        (authorize config wanted trigger now s).1
        (authorize config wanted trigger now s).0
unfolding authorize
authorize-IsWithin config wanted trigger now s =
    decide-IsWithin wanted trigger (snapshot config now s).0 (snapshot-IsConsistent config now s)
