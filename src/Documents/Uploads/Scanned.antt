-- ===== src/Documents/Uploads/Scanned.antt =====
-- What is known of a file that the checks let through.
use payroll_management_syste.Prelude.{
  ◌∙◌, sym, find-Elem, find_sound, find, none, inr, ◌≤◌, some-injective, ltb, inl, ap, Elem-any,
  ◌≢◌, some, String, Bool-cases, false, Elem, map, any, Option, ℕ, ◌≡◌, refl, true, List, [], ◌∷◌,
  ◌++◌, arith, ==_iff,
}
use payroll_management_syste.Prelude.Text.{codes, to_lower, starts_with, contains}
use payroll_management_syste.Documents.Uploads.{
  suffix, allowed_types, supplied_type, TypeRule, dangerous_signatures, is_guessed, has_magic,
  Upload, validate_and_scan, is_dangerous, ScanContext, same_codes,
}
use payroll_management_syste.Outcome.{
  raise_unless-ok, raise_if-ok, raise_unless, or_raise-ok, or_raise, validation_error, raise_if,
  Ensures-bind, Ensures,
}

starts_with-append : (part rest : List ℕ) → starts_with part (part ++ rest) ≡ true
starts_with-append [] rest = refl
starts_with-append (p ∷ part) rest = rw ((==_iff p p).1 refl) (starts_with-append part rest)

starts_with_sound :
    (part text : List ℕ) → starts_with part text ≡ true → (rest : List ℕ) × (text ≡ part ++ rest)
starts_with_sound [] text h = (text, refl)
starts_with_sound (p ∷ part) [] h = cc
starts_with_sound (p ∷ part) (c ∷ text) h =
    let (rest, e) = starts_with_sound part text (ground arith) in
    let same : p ≡ c = ground arith in (rest, rw (same, ← e) refl)

-- A part of a text is found wherever it stands.
contains_complete : (before part after : List ℕ) → contains part (before ++ (part ++ after)) ≡ true
contains_complete [] [] [] = refl
contains_complete [] [] (c ∷ after) = refl
contains_complete [] (p ∷ part) after = rw (starts_with-append (p ∷ part) after) refl
contains_complete (c ∷ before) part after = ground (arith, contains_complete before part after)

same_codes-eq : (xs ys : List ℕ) → same_codes xs ys ≡ true → xs ≡ ys
same_codes-eq [] [] h = refl
same_codes-eq [] (y ∷ ys) h = cc
same_codes-eq (x ∷ xs) [] h = cc
same_codes-eq (x ∷ xs) (y ∷ ys) h =
    let first : x ≡ y = ground arith in
    let rest = same_codes-eq xs ys (ground arith) in rw (first, rest) refl

-- No signature stands anywhere in the content, in whatever case.
abbrev pub IsFreeOf : List ℕ → List ℕ → Type 0
IsFreeOf signature content =
    (before after : List ℕ) → map to_lower content ≢ before ++ (map to_lower signature ++ after)

-- The file is within the size limit, its extension and first bytes are those of an allowed type that
-- was declared and is guessed from its name, and it holds no dangerous signature.
abbrev pub IsScanned : ScanContext → Upload → String × String → Type 0
IsScanned c upload (checksum, content_type) =
    (upload.size ≤ c.max_upload_bytes)
    × (checksum ≡ c.sha256 upload.content)
    × ((rule : TypeRule) × Elem rule allowed_types
        × (content_type ≡ rule.name)
        × (supplied_type upload.content_type ≡ rule.content_type)
        × (c.guess_type upload.name ≡ some rule.content_type)
        × Elem (map to_lower (suffix (codes upload.name))) rule.extensions
        × ((magic : List ℕ)
            → rule.magic ≡ some magic
            → (rest : List ℕ) × (upload.content ≡ magic ++ rest)))
    × ((signature : List ℕ)
        → Elem signature dangerous_signatures
        → IsFreeOf signature upload.content)

free_of :
    (content signature : List ℕ)
    → is_dangerous content ≡ false
    → Elem signature dangerous_signatures
    → IsFreeOf signature content
free_of content signature clean m before after e =
    let missed : contains (map to_lower signature) (map to_lower content) ≡ true =
      rw e (contains_complete before (map to_lower signature) after) in
    let found : is_dangerous content ≡ true =
      Elem-any (λ s. contains (map to_lower s) (map to_lower content)) dangerous_signatures
        signature m missed in
    cc

any_same : (text : List ℕ) (xs : List (List ℕ)) → any (same_codes text) xs ≡ true → Elem text xs
any_same text [] h = cc
any_same text (x ∷ xs) h = elim (Bool-cases (same_codes text x)) [
  | inl t ↦ inl (same_codes-eq text x t)
  | inr f ↦ inr (any_same text xs (rw f at h))
]

guessed_eq :
    (guess : Option (List ℕ)) (supplied : List ℕ)
    → is_guessed guess supplied ≡ true
    → guess ≡ some supplied
guessed_eq none supplied h = cc
guessed_eq (some guessed) supplied h = ap some (same_codes-eq guessed supplied h)

has_magic_prefix :
    (o : Option (List ℕ)) (content magic : List ℕ)
    → has_magic o content ≡ true
    → o ≡ some magic
    → (rest : List ℕ) × (content ≡ magic ++ rest)
has_magic_prefix none content magic h e = cc
has_magic_prefix (some m) content magic h e =
    let (rest, same) = starts_with_sound m content h in (rest, rw (← some-injective m magic e) same)

pub validate_and_scan-Ensures :
    (c : ScanContext) (upload : Upload) → Ensures (IsScanned c upload) (validate_and_scan c upload)
unfolding validate_and_scan
validate_and_scan-Ensures c upload =
    let P = IsScanned c upload in
    let supplied = supplied_type upload.content_type in
    let extension = map to_lower (suffix (codes upload.name)) in
    let typed = λ (r : TypeRule). same_codes r.content_type supplied in
    Ensures-bind P
      (raise_if (ltb c.max_upload_bytes upload.size)
        (validation_error "file exceeds the upload limit"))
      _
      λ _ small.
        Ensures-bind P
          (or_raise (find typed allowed_types)
            (validation_error "file type or extension is not allowed"))
          _
          λ rule known.
            let listed = or_raise-ok _ _ known in
            let declared =
              same_codes-eq rule.content_type supplied
                (find_sound typed allowed_types rule listed) in
            Ensures-bind P
              (raise_unless (is_guessed (c.guess_type upload.name) supplied)
                (validation_error "file type or extension is not allowed"))
              _
              λ _ guessed.
                Ensures-bind P
                  (raise_unless (any (same_codes extension) rule.extensions)
                    (validation_error "file extension does not match its declared type"))
                  _
                  λ _ extended.
                    Ensures-bind P
                      (raise_unless (has_magic rule.magic upload.content)
                        (validation_error "file content does not match its declared type"))
                      _
                      λ _ magical.
                        Ensures-bind P
                          (raise_if (is_dangerous upload.content)
                            (validation_error "upload rejected by malware/content scan"))
                          _
                          λ _ clean. (
                            within (raise_if-ok _ _ small),
                            refl,
                            (
                              rule,
                              find-Elem typed allowed_types rule listed,
                              refl,
                              sym declared,
                              guessed_eq (c.guess_type upload.name) supplied
                                    (raise_unless-ok _ _ guessed)
                                  ∙ ap some (sym declared),
                              any_same extension rule.extensions (raise_unless-ok _ _ extended),
                              λ magic e.
                                  has_magic_prefix rule.magic upload.content magic
                                    (raise_unless-ok _ _ magical) e,
                            ),
                            λ signature m.
                                free_of upload.content signature (raise_if-ok _ _ clean) m,
                          )
  where
    within : ltb c.max_upload_bytes upload.size ≡ false → upload.size ≤ c.max_upload_bytes
    within h = ground arith
