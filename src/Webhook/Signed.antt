-- ===== src/Webhook/Signed.antt =====
-- A webhook that core/webhook.py signs passes its own check of signatures.
use mock_sim.Base.{
  ℕ, ◌*◌, ◌/◌, ◌+◌, ◌≤◌, ◌≡◌, ◌≢◌, refl, sym, ap, ◌∙◌, true, false, some, [], ◌∷◌, ◌++◌, Text,
  codes, text_eq, text_eq_refl, dict_get, All, is_digit, ◌==◌, arith,
}
use mock_sim.Base.Int.{pos, abs_ℤ, ◌-ℤ◌, ◌*ℤ◌}
use mock_sim.Models.{per_event}
use mock_sim.Session.{ok}
use mock_sim.Calendar.{microseconds_per_second}
use mock_sim.Decimal.{str_nat, int_text, str_int-pos, all_digits, is_digits, is_digits-str_nat}
use mock_sim.Money.Laws.{int_text-str_int}
use mock_sim.Webhook.{
  split, split_once, pairs_of, last_get, sign, is_stale, check_at, check_parts, verify_signature,
  signature_header, webhook_headers,
}

abbrev HasNo : ℕ → Text → Type 0
HasNo c s = All (λ x. (x == c) ≡ false) s

split-whole : (c : ℕ) (s : Text) → HasNo c s → split c s ≡ s ∷ []
unfolding split
split-whole c [] h = refl
split-whole c (x ∷ s) h = rw (h.0, split-whole c s h.1) refl

split-append : (c : ℕ) (s t : Text) → HasNo c s → split c (s ++ c ∷ t) ≡ s ∷ split c t
unfolding split
split-append c [] t h = let same : (c == c) ≡ true = ground arith in rw same refl
split-append c (x ∷ s) t h = rw (h.0, split-append c s t h.1) refl

all_digits-HasNo : (s : Text) → all_digits s ≡ true → HasNo b',' s
unfolding all_digits is_digit
all_digits-HasNo [] h = tt
all_digits-HasNo (c ∷ s) h = (ground arith, all_digits-HasNo s (ground arith))

is_digits-HasNo : (s : Text) → is_digits s ≡ true → HasNo b',' s
unfolding is_digits
is_digits-HasNo [] h = tt
is_digits-HasNo (c ∷ s) h = all_digits-HasNo (c ∷ s) h

-- Integers by their parts: a time that is not before the signature's and not too far behind it.
is_stale-fresh :
    (hmac : Text → Text → Text) (now ts tolerance : ℕ)
    → ts * 1_000_000 ≤ now
    → now ≤ (ts + tolerance) * 1_000_000
    → is_stale hmac now (pos ts) tolerance ≡ false
unfolding abs_ℤ ◌-ℤ◌ ◌*ℤ◌
is_stale-fresh hmac now ts tolerance after within = ground (arith, after, within)

module _ (hmac : Text → Text → Text) (hex : (k m : Text) → HasNo b',' (hmac k m))
    (shown : (k m : Text) → hmac k m ≢ []) where
  not_empty : (n : ℕ) → str_nat n ≢ []
  unfolding is_digits
  not_empty n e = cc (ap is_digits (sym e) ∙ is_digits-str_nat n)

  check_parts-of :
      (secret body d s : Text) (tolerance now : ℕ)
      → d ≢ []
      → s ≢ []
      → check_parts hmac secret body tolerance now (some d) (some s)
        ≡ check_at hmac secret s body tolerance now (int_text d)
  unfolding check_parts
  check_parts-of secret body [] s tolerance now h g = absurd (h refl)
  check_parts-of secret body (c ∷ d) [] tolerance now h g = absurd (g refl)
  check_parts-of secret body (c ∷ d) (e ∷ s) tolerance now h g = refl

  parts :
      (d s : Text)
      → HasNo b',' d
      → HasNo b',' s
      → pairs_of (split b',' (codes "t=" ++ (d ++ (codes ",v1=" ++ s))))
        ≡ (codes "t", d) ∷ (codes "v1", s) ∷ []
  unfolding split_once
  parts d s h g = ap pairs_of (
      split-append b',' (codes "t=" ++ d) (codes "v1=" ++ s) (refl, (refl, h))
      ∙ ap (λ l. (codes "t=" ++ d) ∷ l)
          (split-whole b',' (codes "v1=" ++ s) (refl, (refl, (refl, g)))))

  -- The signature header of a webhook is accepted with the same secret and body, where the check comes
  -- after the signing and within the tolerance of its second, and where HMAC gives a text that is not
  -- empty and has no comma.
  pub verify_signature-sign :
      (secret body event_id event_type partition_key : Text) (sent now tolerance : ℕ)
      → sent ≤ now
      → now ≤ (sent / microseconds_per_second + tolerance) * microseconds_per_second
      → (header : Text) × (dict_get
            (codes "MockSim-Signature")
            (webhook_headers hmac per_event secret sent body event_id event_type partition_key)
          ≡ some header)
        × (verify_signature hmac now secret header body tolerance ≡ true)
  unfolding dict_get webhook_headers verify_signature last_get text_eq check_at sign
  verify_signature-sign secret body event_id event_type partition_key sent now tolerance after
        within =
      let ts = sent / microseconds_per_second in
      let s = sign hmac secret (pos ts) body in
      let d = str_nat ts in
      let read : int_text d ≡ ok (pos ts) =
        ap int_text (sym (str_int-pos ts)) ∙ int_text-str_int (pos ts) in
      let fresh =
        is_stale-fresh hmac now ts tolerance (omega (arith, after)) (omega (arith, within)) in
      (
        signature_header hmac secret ts body,
        refl,
        rw
            (
              parts d s (is_digits-HasNo d (is_digits-str_nat ts)) (hex secret _),
              check_parts-of secret body d s tolerance now (not_empty ts) (shown secret _),
              read,
              fresh,
            )
            (text_eq_refl s),
      )
