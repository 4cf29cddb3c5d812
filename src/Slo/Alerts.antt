-- ===== src/Slo/Alerts.antt =====
-- observability/slo.go: the alert levels of the default configuration, as shares of failed calls.
use switch.Prelude.{
  ℕ, ◌*◌, ◌≡◌, Bool, ◌&&◌, ◌||◌, none, some, arith, ltb, if◌then◌else◌, refl, ap, ◌∙◌, true, false,
  not, Option,
}
use switch.Slo.{
  SloMonitor, default_slo_config, Tally, aggregate, burns, level_of, same_level, evaluate, no_alert,
  ticket, page, AlertLevel, SloAlert,
}

-- The share of failed calls of a window is more than this many thousandths.
abbrev pub fails_over : ℕ → Tally → Bool
fails_over share w = ltb 0 w.total && ltb (share * w.total) (1000 * w.fails)

burns-default_page :
    (w : Tally) → burns default_slo_config default_slo_config.page_threshold w ≡ fails_over 72 w
unfolding burns
burns-default_page w = ground arith

burns-default_ticket :
    (w : Tally) → burns default_slo_config default_slo_config.ticket_threshold w ≡ fails_over 30 w
unfolding burns
burns-default_ticket w = ground arith

level_of-default :
    (short long : Tally)
    → level_of default_slo_config short long ≡ (
        if fails_over 72 short || fails_over 72 long
        then page
        else if fails_over 30 short || fails_over 30 long
        then ticket
        else no_alert)
unfolding level_of
level_of-default short long =
    rw
      (
        burns-default_page short,
        burns-default_page long,
        burns-default_ticket short,
        burns-default_ticket long,
      )
      refl

abbrev alert_at : Tally → Tally → AlertLevel → AlertLevel → Option SloAlert
alert_at short long before level =
    if same_level level no_alert || same_level level before
    then none
    else some (record { level = level; short = short; long = long })

unless_either :
    (a b : Bool) (alert : SloAlert)
    → (if not a && not b then some alert else none) ≡ (if a || b then none else some alert)
unless_either true b alert = refl
unless_either false true alert = refl
unless_either false false alert = refl

-- With the default configuration an evaluation gives an alert exactly when its level is not that of
-- the evaluation before and not none. The level is page when more than 7.2 per cent of the calls of one
-- of the windows have failed, else ticket when more than 3 per cent have, else none.
pub evaluate-default :
    (sm : SloMonitor)
    → sm.cfg ≡ default_slo_config
    → let short = aggregate sm.short_buckets in
      let long = aggregate sm.long_buckets in
      let level =
        if fails_over 72 short || fails_over 72 long
        then page
        else if fails_over 30 short || fails_over 30 long
        then ticket
        else no_alert in
      ((evaluate sm).0.last_alert ≡ level)
      × ((evaluate sm).1 ≡ (
          if same_level level no_alert || same_level level sm.last_alert
          then none
          else some (record { level = level; short = short; long = long })))
unfolding evaluate
evaluate-default sm default =
    let short = aggregate sm.short_buckets in
    let long = aggregate sm.long_buckets in
    let level = ap (λ c. level_of c short long) default ∙ level_of-default short long in
    (level, unless_either _ _ _ ∙ ap (alert_at short long sm.last_alert) level)
