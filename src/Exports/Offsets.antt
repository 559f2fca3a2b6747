-- ===== src/Exports/Offsets.antt =====
-- The offsets of a PDF file
-- (apps/api/src/modules/imports-exports/csv-export.service.ts, lines 170-194).
use splitsaathi.Common.{List, [], ap, append_assoc, arith, length, sym, ℕ, ◌++◌, ◌+◌, ◌∙◌, ◌∷◌, ◌≡◌}
use splitsaathi.Common.Keys.{Text, codes}
use splitsaathi.Common.Texts.{join}
use splitsaathi.Exports.{offsets, pdf_body, pdf_file, pdf_header, pdf_trailer}

module _ (byte_length : Text → ℕ) where
  -- Each object stands in the file behind as many bytes as its offset says.
  abbrev pub AreAt : Text → List ℕ → List Text → Type 0
  AreAt file [] [] = Unit
  AreAt file [] (object ∷ objects) = ⊥
  AreAt file (offset ∷ at) [] = ⊥
  AreAt file (offset ∷ at) (object ∷ objects) =
      ((before : Text) × (after : Text) × (before ++ (object ++ after) ≡ file)
        × (byte_length before ≡ offset))
      × AreAt file at objects

  module _ (splits : (a b : Text) → byte_length (a ++ 10 ∷ b) ≡ byte_length a + 1 + byte_length b)
      (nothing : byte_length [] ≡ 0) where
    object_at :
        (front object after : Text) (offset : ℕ) (file : Text)
        → byte_length front + 1 ≡ offset
        → front ++ 10 ∷ (object ++ after) ≡ file
        → (before : Text) × (after : Text) × (before ++ (object ++ after) ≡ file)
          × (byte_length before ≡ offset)
    object_at front object after offset file at_offset there = (
      front ++ 10 ∷ [],
      after,
      append_assoc front (10 ∷ []) (object ++ after) ∙ there,
      splits front [] ∙ omega (arith, nothing, at_offset),
    )

    join_out :
        (object others rest : Text)
        → object ++ 10 ∷ (others ++ 10 ∷ rest) ≡ ((object ++ 10 ∷ []) ++ others) ++ 10 ∷ rest
    join_out object others rest =
        sym (append_assoc object (10 ∷ others) (10 ∷ rest))
        ∙ ap (λ t. t ++ 10 ∷ rest) (sym (append_assoc object (10 ∷ []) others))

    offsets-AreAt :
        (front : Text) (objects : List Text) (rest : Text) (offset : ℕ) (file : Text)
        → byte_length front + 1 ≡ offset
        → front ++ 10 ∷ (join (10 ∷ []) objects ++ 10 ∷ rest) ≡ file
        → AreAt file (offsets byte_length offset objects) objects
    unfolding offsets join
    offsets-AreAt front [] rest offset file at_offset there = tt
    offsets-AreAt front (object ∷ []) rest offset file at_offset there =
        (object_at front object (10 ∷ rest) offset file at_offset there, tt)
    offsets-AreAt front (object ∷ next ∷ objects) rest offset file at_offset there =
        let others = join (10 ∷ []) (next ∷ objects) in
        let there' : front ++ 10 ∷ (object ++ 10 ∷ (others ++ 10 ∷ rest)) ≡ file =
          ap (λ t. front ++ 10 ∷ t) (join_out object others rest) ∙ there in
        (
          object_at front object (10 ∷ (others ++ 10 ∷ rest)) offset file at_offset there',
          offsets-AreAt (front ++ 10 ∷ object) (next ∷ objects) rest
              (offset + byte_length (object ++ 10 ∷ [])) file
              (omega (arith, splits front object, splits object [], nothing, at_offset))
              (append_assoc front (10 ∷ object) (10 ∷ (others ++ 10 ∷ rest)) ∙ there'),
        )

    trailer_out :
        (joined trailer : Text)
        → codes "%PDF-1.4" ++ 10 ∷ (joined ++ 10 ∷ trailer)
          ≡ (codes "%PDF-1.4\n" ++ (joined ++ 10 ∷ [])) ++ trailer
    trailer_out joined trailer =
        ap (λ t. codes "%PDF-1.4" ++ 10 ∷ t) (sym (append_assoc joined (10 ∷ []) trailer))

    -- Each object of the file stands behind as many bytes as its offset says.
    pub pdf_file-AreAt :
        (objects : List Text)
        → byte_length (codes "%PDF-1.4") ≡ 8
        → AreAt
            (pdf_file byte_length objects)
            (offsets byte_length (length (pdf_header byte_length)) objects)
            objects
    unfolding pdf_file pdf_body
    pdf_file-AreAt objects header_length =
        offsets-AreAt (codes "%PDF-1.4") objects (pdf_trailer byte_length objects) 9
          (pdf_file byte_length objects) (omega (arith, header_length))
          (trailer_out (join (10 ∷ []) objects) (pdf_trailer byte_length objects))
