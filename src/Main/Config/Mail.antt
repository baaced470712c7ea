-- ===== src/Main/Config/Mail.antt =====
-- cmd/owlwatch/main.go: the mail settings of `loadAlertConfig` belong together.
use owlwatch.Prelude.{
  ◌≡◌, ◌⊎◌, inl, inr, refl, arith, true, false, not, ◌||◌, ◌&&◌, List, [], ◌∷◌, Bytes, bytes,
}
use owlwatch.Alerts.{Floats, is_empty}
use owlwatch.Peers.Config.{split}
use owlwatch.Main.Config.{rejected, System, fields, check_mail, load_alert_config, load_config}
use owlwatch.Main.Config.Outcome.{
  Holds, at_value, at_error, Loaded-cases, Holds-const, Holds-rest, Holds-elim,
}

-- Neither a mail server nor a recipient is given, or both are and there is a sender.
pub MailSettings : Bytes → List Bytes → Bytes → Type 0
MailSettings host to sender =
    ((host ≡ []) × (to ≡ []))
    ⊎ ((is_empty host ≡ false) × (is_empty to ≡ false) × (is_empty sender ≡ false))

-- A server or a recipient is given, and something that goes with it is not; a sender alone does not
-- count.
unfoldable pub IsPartial : Bytes → List Bytes → Bytes → Type 0
IsPartial host to sender =
    (not (is_empty host && is_empty to) && (is_empty host || is_empty to || is_empty sender)) ≡ true

whole_not_partial :
    (host : Bytes) (to : List Bytes) (sender : Bytes)
    → MailSettings host to sender
    → IsPartial host to sender
    → ⊥
unfolding MailSettings IsPartial is_empty
whole_not_partial [] [] sender whole partial = cc
whole_not_partial [] (_ ∷ _) sender whole partial = ground arith
whole_not_partial (_ ∷ _) [] sender whole partial = ground arith
whole_not_partial (_ ∷ _) (_ ∷ _) [] whole partial = ground arith
whole_not_partial (_ ∷ _) (_ ∷ _) (_ ∷ _) whole partial = cc

pub check_mail-Holds :
    {F : Type 0} (floats : Floats F) (sys : System F) (host : Bytes) (to : List Bytes)
    (sender : Bytes)
    → Holds (λ _. MailSettings host to sender) (check_mail floats sys host to sender)
unfolding check_mail is_empty MailSettings
check_mail-Holds floats sys [] [] sender = at_value (inl (refl, refl))
check_mail-Holds floats sys [] (_ ∷ _) sender = at_error
check_mail-Holds floats sys (_ ∷ _) [] sender = at_error
check_mail-Holds floats sys (_ ∷ _) (_ ∷ _) [] = at_error
check_mail-Holds floats sys (_ ∷ _) (_ ∷ _) (_ ∷ _) = at_value (inr (refl, refl, refl))

module _ {F : Type 0} (floats : Floats F) (sys : System F) where
  open sys use {getenv}

  -- The mail settings as the environment gives them.
  unfoldable pub FromEnvironment : (Bytes → List Bytes → Bytes → Type 0) → Type 0
  FromEnvironment P =
      P (getenv (bytes "OWLWATCH_SMTP_HOST"))
        (fields (split 44 (getenv (bytes "OWLWATCH_ALERT_TO"))))
        (getenv (bytes "OWLWATCH_SMTP_FROM"))

  load_alert_config-MailSettings :
      Holds (λ _. FromEnvironment MailSettings) (load_alert_config floats sys)
  unfolding load_alert_config FromEnvironment
  load_alert_config-MailSettings = Holds-const _ (check_mail-Holds floats sys _ _ _)

  load_config-MailSettings : Holds (λ _. FromEnvironment MailSettings) (load_config floats sys)
  unfolding load_config
  load_config-MailSettings = Holds-rest _ _ λ _. Holds-rest _ _ λ _. Holds-rest _ _ λ _.
      Holds-rest _ _ λ _. Holds-rest _ _ λ _. Holds-rest _ _ λ _. Holds-rest _ _ λ _.
        Holds-rest _ _
          λ _. Holds-rest _ _ λ _. Holds-rest _ _ λ _. Holds-const _ load_alert_config-MailSettings

  -- A mail server without recipients, recipients without a server, or both without a sender are an
  -- error at the start, whatever the other variables say. A sender with neither is not one of these.
  pub load_config-IsPartial :
      FromEnvironment IsPartial → (key : Bytes) × (load_config floats sys ≡ rejected key)
  unfolding FromEnvironment
  load_config-IsPartial partial = elim (Loaded-cases (load_config floats sys)) [
    | inl (key, e) ↦ (key, e)
    | inr (c, e) ↦ absurd (whole_not_partial _ _ _ (Holds-elim load_config-MailSettings e) partial)
  ]
