-- ===== src/Settlements/Upi.antt =====
-- UPI links: packages/domain/src/upi-uri.ts, and the ports and the provider of
-- apps/api/src/modules/settlements (upi-provider.ports.ts, manual-upi.providers.ts).
use splitsaathi.Common.{
  Bool, List, Option, Result, [], all, false, if◌then◌else◌, leb, length, nat_beq, not, ok,
  or_default, some, throw_if, ℕ, ◌&&◌, ◌++◌, ◌>>=◌, ◌>>◌, ◌||◌, ◌∷◌,
}
use splitsaathi.Common.Int.{leb_ℤ, pos, ℤ}
use splitsaathi.Common.Keys.{Text, codes, text_beq, text_eq, ◌==◌}
use splitsaathi.Common.Digits.{is_digit}
use splitsaathi.Money.{format_decimal_amount}

-- `UpiUriInput`.
pub record UpiUriInput : Type 0 where
  pub payee_vpa : Text
  pub payee_name : Text
  pub amount_minor : ℤ
  pub currency_code : Option Text
  pub note : Text
  pub transaction_reference : Text

-- What `build` throws.
pub data UpiError : Type 0 where
  not_inr invalid_upi_amount invalid_vpa : UpiError

abbrev is_letter : ℕ → Bool
is_letter c = leb 65 c && leb c 90 || leb 97 c && leb c 122

-- `[A-Za-z0-9._-]`, and `[A-Za-z0-9.-]` behind the at sign.
abbrev is_name_char : ℕ → Bool
is_name_char c = is_letter c || is_digit c || nat_beq c 46 || nat_beq c 95 || nat_beq c 45

abbrev is_host_char : ℕ → Bool
is_host_char c = is_letter c || is_digit c || nat_beq c 46 || nat_beq c 45

abbrev before_at : Text → Text
before_at [] = []
before_at (c ∷ cs) = if nat_beq c 64 then [] else c ∷ before_at cs

abbrev after_at : Text → Text
after_at [] = []
after_at (c ∷ cs) = if nat_beq c 64 then cs else after_at cs

abbrev within : ℕ → ℕ → ℕ → Bool
within low high n = leb low n && leb n high

abbrev is_host : Text → Bool
is_host [] = false
is_host (c ∷ cs) = is_letter c && all is_host_char cs && within 2 64 (length cs)

-- `isValidVpa`: neither part of the pattern takes an at sign.
unfoldable pub is_valid_vpa : Text → Bool
is_valid_vpa value =
    all is_name_char (before_at value)
    && within 2 256 (length (before_at value))
    && is_host (after_at value)

-- `UpiUriBuilder.build`. `new URLSearchParams(…).toString()` is the platform's.
unfoldable pub build : (List (Text × Text) → Text) → UpiUriInput → Result UpiError Text
unfolding is_valid_vpa format_decimal_amount text_beq
build search_params input = do
  throw_if (not (or_default (codes "INR") input.currency_code == codes "INR")) not_inr
  throw_if (leb_ℤ input.amount_minor (pos 0)) invalid_upi_amount
  throw_if (not (is_valid_vpa input.payee_vpa)) invalid_vpa
  ok (
      codes "upi://pay?"
      ++ search_params (
          (codes "pa", input.payee_vpa)
          ∷ (codes "pn", input.payee_name)
          ∷ (codes "am", format_decimal_amount input.amount_minor 2)
          ∷ (codes "cu", codes "INR")
          ∷ (codes "tn", input.note)
          ∷ (codes "tr", input.transaction_reference)
          ∷ []))

-- `CreateUpiIntentInput`.
pub record CreateUpiIntentInput : Type 0 where
  pub settlement_intent_id : Text
  pub payer_participant_id : Text
  pub payee_participant_id : Text
  pub payee_vpa : Text
  pub payee_name : Text
  pub amount_minor : ℤ
  pub currency_code : Text
  pub note : Text
  pub ledger_reference : Text

-- `CreatedUpiIntent`.
pub record CreatedUpiIntent : Type 0 where
  pub provider_reference : Text
  pub upi_uri : Text
  pub qr_payload : Text
  pub expires_at : Text

-- `UpiIntentProviderPort.createIntent`.
abbrev pub UpiIntentProvider : Type 0
UpiIntentProvider = CreateUpiIntentInput → Result UpiError CreatedUpiIntent

-- `DevUpiIntentProvider.createIntent`, with the time in a quarter of an hour.
unfoldable pub dev_upi_intent_provider : (List (Text × Text) → Text) → Text → UpiIntentProvider
unfolding build
dev_upi_intent_provider search_params in_a_quarter input = do
  upi_uri ← build search_params (record {
    payee_vpa = input.payee_vpa;
    payee_name = input.payee_name;
    amount_minor = input.amount_minor;
    currency_code = some input.currency_code;
    note = input.note;
    transaction_reference = input.ledger_reference;
  })
  ok (record {
    provider_reference = input.ledger_reference;
    upi_uri = upi_uri;
    qr_payload = upi_uri;
    expires_at = in_a_quarter;
  })

-- `GatewayPaymentStatus`, less the raw payload.
pub data GatewayStatus : Type 0 where
  unknown pending succeeded failed reversed_payment refunded_payment : GatewayStatus

pub record GatewayPaymentStatus : Type 0 where
  pub provider_reference : Text
  pub status : GatewayStatus
  pub amount_minor : Option ℤ
  pub utr : Option Text
  pub settlement_intent_id : Option Text
