-- ===== src/Csv/Quoting.antt =====
-- Cells as `toCsv` writes them and the loop of `parseCsv` reads them
-- (apps/api/src/modules/imports-exports/csv.ts).
use splitsaathi.Common.{
  Bool, Bool-cases, [], any, ap, append-nil, append_assoc, arith, false, inl, inr, nat_beq,
  nat_beq_iff, not, sym, true, ℕ, ◌++◌, ◌∙◌, ◌∷◌, ◌≡◌, ◌⊎◌,
}
use splitsaathi.Common.Keys.{Text}
use splitsaathi.Csv.{Scan, double_quotes, encode, is_special, next_is, scan, scan_char}

abbrev is_quote : ℕ → Bool
is_quote c = nat_beq c 34

-- The text is empty, or holds a character that is no quote.
abbrev pub IsReadable : Text → Type 0
IsReadable value = (value ≡ []) ⊎ (any (λ c. not (nat_beq c 34)) value ≡ true)

-- The variables after `current` has grown by a text.
abbrev pub grown : Scan → Text → Scan
grown s value = record s { current = s.current ++ value }

grown-grown : (s : Scan) (a b : Text) → grown (grown s a) b ≡ grown s (a ++ b)
grown-grown s a b = ap (λ t. record s { current = t }) (append_assoc s.current a b)

-- What a character does that ends nothing.
scan_char-kept :
    (s : Scan) (c : ℕ) (rest : Text)
    → is_quote c ≡ false
    → (s.in_quotes ≡ true) ⊎ (is_special c ≡ false)
    → scan_char s c rest ≡ (grown s (c ∷ []), false)
unfolding scan_char
scan_char-kept s c rest other (inl inside) = rw other rw inside (ground arith)
scan_char-kept s c rest other (inr plain) = ground arith

scan_char-toggles :
    (s : Scan) (rest : Text)
    → next_is 34 rest ≡ false
    → scan_char s 34 rest ≡ (record s { in_quotes = not s.in_quotes }, false)
unfolding scan_char
scan_char-toggles s rest closed = rw closed

module _ (rest : Text) (closed : next_is 34 rest ≡ false) where
  -- Between the quotes, up to the closing one.
  scan-inside :
      (value : Text) (s : Scan)
      → s.in_quotes ≡ true
      → scan (s, false) (double_quotes value ++ 34 ∷ rest)
        ≡ scan (record (grown s value) { in_quotes = false }, false) rest
  unfolding scan double_quotes
  scan-inside [] s inside =
      rw (scan_char-toggles s rest closed)
        (ap (λ (t : Scan). scan (t, false) rest) (ground (arith, append-nil s.current)))
  scan-inside (c ∷ cs) s inside = elim (Bool-cases (is_quote c)) [
    | inl quote ↦ rw ((nat_beq_iff c 34).0 quote) (
        unfold scan_char in
        scan-inside cs (grown s (34 ∷ [])) inside
        ∙ ap (λ (t : Scan). scan (record t { in_quotes = false }, false) rest)
            (grown-grown s (34 ∷ []) cs))
    | inr other ↦
        rw other rw (scan_char-kept s c (double_quotes cs ++ 34 ∷ rest) other (inl inside)) (
          scan-inside cs (grown s (c ∷ [])) inside
          ∙ ap (λ (t : Scan). scan (record t { in_quotes = false }, false) rest)
              (grown-grown s (c ∷ []) cs))
  ]

  -- From the opening quote on. Quotes at the start of the value are read before the opening one.
  scan-opened :
      (value : Text) (s : Scan)
      → s.in_quotes ≡ false
      → any (λ c. not (nat_beq c 34)) value ≡ true
      → scan (s, false) (34 ∷ (double_quotes value ++ 34 ∷ rest)) ≡ scan (grown s value, false) rest
  unfolding scan double_quotes
  scan-opened [] s outside other = cc
  scan-opened (c ∷ cs) s outside found = elim (Bool-cases (is_quote c)) [
    | inl quote ↦ rw ((nat_beq_iff c 34).0 quote) (
        unfold scan_char in
        scan-opened cs (grown s (34 ∷ [])) outside (ground arith)
        ∙ ap (λ (t : Scan). scan (t, false) rest) (grown-grown s (34 ∷ []) cs))
    | inr other ↦
        let behind = double_quotes (c ∷ cs) ++ 34 ∷ rest in
        let first : next_is 34 behind ≡ false = rw other other in
        ap (λ (t : Scan × Bool). scan t behind) (scan_char-toggles s behind first)
        ∙ scan-inside (c ∷ cs) (record s { in_quotes = not s.in_quotes }) (rw outside)
        ∙ ap (λ (b : Bool). scan (record (grown s (c ∷ cs)) { in_quotes = b }, false) rest)
            (sym outside)
  ]

-- A value without special characters.
scan-plain :
    (value : Text) (s : Scan) (rest : Text)
    → any is_special value ≡ false
    → scan (s, false) (value ++ rest) ≡ scan (grown s value, false) rest
unfolding scan
scan-plain [] s rest plain =
    ap (λ (t : Text). scan (record s { current = t }, false) rest) (sym (append-nil s.current))
scan-plain (c ∷ cs) s rest plain =
    rw (scan_char-kept s c (cs ++ rest) (ground arith) (inr (ground arith))) (
      scan-plain cs (grown s (c ∷ [])) rest (ground arith)
      ∙ ap (λ (t : Scan). scan (t, false) rest) (grown-grown s (c ∷ []) cs))

other_than_quotes :
    (value : Text)
    → IsReadable value
    → any is_special value ≡ true
    → any (λ c. not (nat_beq c 34)) value ≡ true
other_than_quotes value (inl empty) special = cc (ap (any is_special) empty)
other_than_quotes value (inr other) special = other

-- A value as it is written, before the end of the cell.
pub scan-encode :
    (value : Text) (s : Scan) (rest : Text)
    → IsReadable value
    → s.in_quotes ≡ false
    → next_is 34 rest ≡ false
    → scan (s, false) (encode value ++ rest) ≡ scan (grown s value, false) rest
unfolding encode
scan-encode value s rest readable outside closed = elim (Bool-cases (any is_special value)) [
  | inl special ↦ rw special (
      ap (λ (t : Text). scan (s, false) (34 ∷ t))
        (append_assoc (double_quotes value) (34 ∷ []) rest)
      ∙ scan-opened rest closed value s outside (other_than_quotes value readable special))
  | inr plain ↦ rw plain (scan-plain value s rest plain)
]
