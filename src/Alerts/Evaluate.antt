-- ===== src/Alerts/Evaluate.antt =====
-- `compose`, `Evaluate` and `SendTest` of internal/alerts/alerts.go: the email for the rules that
-- are due, and what a sent or failed email does to them.
use owlwatch.Prelude.{
  ℕ, ◌+◌, Bool, List, [], ◌∷◌, ◌++◌, Option, none, some, ltb, if◌then◌else◌, length, Bytes, bytes,
  lookup, insert,
}
use owlwatch.Metrics.{Snapshot}
use owlwatch.Alerts.{
  Floats, Format, Config, Breach, States, Notifier, Mail, minute, retry_after, unix_milli, rules,
  check_all,
}

abbrev crlf : Bytes
crlf = 13 ∷ 10 ∷ []

module _ {F : Type 0} (fmt : Format F) where
  open fmt use {fixed1, fixed0, decimal, duration, rfc3339}

  subject_of : Bytes → Breach F → List (Breach F) → Bytes
  subject_of hostname first [] =
      bytes "[owlwatch] "
      ++ (hostname
          ++ (bytes ": "
              ++ (first.label
                  ++ (bytes " at "
                      ++ (fixed1 first.value
                          ++ (first.unit
                              ++ (bytes " (threshold "
                                  ++ (fixed0 first.threshold ++ (first.unit ++ bytes ")")))))))))
  subject_of hostname first (second ∷ more) =
      bytes "[owlwatch] "
      ++ (hostname
          ++ (bytes ": "
              ++ (decimal (length (first ∷ second ∷ more)) ++ bytes " metrics over threshold")))

  breach_line : Breach F → Bytes
  breach_line d =
      bytes "  - "
      ++ (d.label
          ++ (bytes ": "
              ++ (fixed1 d.value
                  ++ (d.unit
                      ++ (bytes " (threshold "
                          ++ (fixed0 d.threshold
                              ++ (d.unit
                                  ++ (bytes ", breached since "
                                      ++ (rfc3339 d.since ++ (bytes ")" ++ crlf))))))))))

  breach_lines : List (Breach F) → Bytes
  unfolding breach_line
  breach_lines [] = []
  breach_lines (d ∷ ds) = breach_line d ++ breach_lines ds

  -- The code calls it with at least one breach: `first` is `due[0]`.
  pub compose : Config F → Bytes → Breach F → List (Breach F) → Mail
  unfolding subject_of breach_lines
  compose cfg hostname first more = record {
    subject = subject_of hostname first more;
    body =
        bytes "owlwatch alert for "
        ++ (hostname
            ++ (crlf
                ++ (crlf
                    ++ (bytes
                          "The following metrics have been at or above their threshold for at least "
                        ++ (duration cfg.hold_for
                            ++ (bytes ":"
                                ++ (crlf
                                    ++ (crlf
                                        ++ (breach_lines (first ∷ more)
                                            ++ (crlf
                                                ++ (bytes
                                                      "No further email is sent for a metric while it stays breached until "
                                                    ++ (duration cfg.cooldown
                                                        ++ (bytes " has passed."
                                                            ++ crlf)))))))))))));
  }

  -- SendTest composes a fixed message and leaves the notifier alone.
  pub test_mail : Notifier F → Mail
  test_mail n = record {
    subject = bytes "[owlwatch] " ++ (n.hostname ++ bytes ": test email");
    body =
        bytes "This is a test email from owlwatch on "
        ++ (n.hostname
            ++ (bytes "."
                ++ (crlf
                    ++ (crlf
                        ++ (bytes "Delivery works "
                            ++ ((226 ∷ 128 ∷ 148 ∷ [])
                                ++ (bytes " threshold alert emails will reach this mailbox."
                                    ++ crlf)))))));
  }

-- The rate limit of the error log, by the wall clock.
note_failure : ℕ → Option ℕ → Option ℕ
note_failure clock none = some clock
note_failure clock (some t) = if ltb (t + minute) clock then some clock else some t

module _ {F : Type 0} where
  -- `d.state.nextAllowed = t`: the state of a breach is in the map, where `check` put it.
  unfoldable pub postpone_one : ℕ → Breach F → States → States
  postpone_one t d states = elim (lookup d.key states) [
    | none ↦ states
    | some st ↦ insert d.key (record st { next_allowed = some t }) states
  ]

  unfoldable pub postpone : ℕ → List (Breach F) → States → States
  postpone t [] states = states
  postpone t (d ∷ ds) states = postpone t ds (postpone_one t d states)

  -- What follows the checks: nothing, or one email whose delivery succeeds as `sent` says.
  unfoldable pub settle : ℕ → ℕ → Bool → Notifier F → States → List (Breach F) → Notifier F
  unfolding postpone note_failure
  settle now clock sent n states [] = record n { states = states }
  settle now clock sent n states (d ∷ ds) =
      if sent
      then record n { states = postpone (now + n.cfg.cooldown) (d ∷ ds) states }
      else record n {
        states = postpone (now + retry_after) (d ∷ ds) states;
        last_fail = note_failure clock n.last_fail;
      }

module _ {F : Type 0} (floats : Floats F) (fmt : Format F) where
  -- The rules that the snapshot makes due, with the states after the checks.
  unfoldable pub pass : Snapshot F → Notifier F → States × List (Breach F)
  pass snap n =
      check_all floats fmt n.cfg.hold_for (unix_milli snap.ts) (rules floats fmt n.cfg snap)
        (n.states, [])

  mail_for : Notifier F → List (Breach F) → Option Mail
  unfolding compose
  mail_for n [] = none
  mail_for n (d ∷ ds) = some (compose fmt n.cfg n.hostname d ds)

  -- The notifier after one snapshot, and the email that was handed to the mailer. `sent` is what the
  -- mailer answers and `clock` the wall clock at a failure.
  unfoldable pub evaluate : ℕ → Bool → Snapshot F → Notifier F → Notifier F × Option Mail
  unfolding mail_for
  evaluate clock sent snap n =
      let (states, due) = pass snap n in
      (settle (unix_milli snap.ts) clock sent n states due, mail_for n due)
