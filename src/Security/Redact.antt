-- ===== src/Security/Redact.antt =====
-- `redact` of src/agentops/security.py: the value of every object key that names a secret, in any
-- case, is replaced. `get_run` and the payloads of the outbox go through it, `list_runs` does not.
-- `str.lower` is a parameter; nothing is assumed of it.
use agentops_control_plane.Base.{
  String, Bool, true, ◌≡◌, refl, ap, List, [], ◌∷◌, one_of, if◌then◌else◌, Bool-cases, inl, inr,
}
use agentops_control_plane.Json.{
  Value, null, bool, num, text, arr, obj, Items, nil, cons, Fields, end, field,
}

abbrev pub sensitive_keys : List String
sensitive_keys = "authorization" ∷ "api_key" ∷ "apikey" ∷ "password" ∷ "secret" ∷ "token" ∷ []

module _ (lower : String → String) where
  -- key.lower() in SENSITIVE_KEYS
  unfoldable pub is_sensitive : String → Bool
  is_sensitive key = one_of (lower key) sensitive_keys

  unfoldable mutual
    pub redact : Value → Value
    redact null = null
    redact (bool b) = bool b
    redact (num n) = num n
    redact (text s) = text s
    redact (arr xs) = arr (redact_items xs)
    redact (obj fs) = obj (redact_fields fs)

    pub redact_items : Items → Items
    redact_items nil = nil
    redact_items (cons x xs) = cons (redact x) (redact_items xs)

    pub redact_fields : Fields → Fields
    redact_fields end = end
    redact_fields (field key item fs) =
        field key (if is_sensitive key then text "[REDACTED]" else redact item) (redact_fields fs)

  -- No object of the value has a sensitive key with any other value than the mark.
  unfoldable mutual
    pub IsClean : Value → Type 0
    IsClean (arr xs) = AllClean xs
    IsClean (obj fs) = FieldsClean fs
    IsClean _ = Unit {0}

    pub AllClean : Items → Type 0
    AllClean nil = Unit {0}
    AllClean (cons x xs) = IsClean x × AllClean xs

    pub FieldsClean : Fields → Type 0
    FieldsClean end = Unit {0}
    FieldsClean (field key item fs) =
        (is_sensitive key ≡ true → item ≡ text "[REDACTED]") × IsClean item × FieldsClean fs

  mutual
    unfolding redact IsClean

    clean : (v : Value) → IsClean (redact v)
    clean null = tt
    clean (bool b) = tt
    clean (num n) = tt
    clean (text s) = tt
    clean (arr xs) = clean_items xs
    clean (obj fs) = clean_fields fs

    clean_items : (xs : Items) → AllClean (redact_items xs)
    clean_items nil = tt
    clean_items (cons x xs) = (clean x, clean_items xs)

    clean_fields : (fs : Fields) → FieldsClean (redact_fields fs)
    clean_fields end = tt
    clean_fields (field key item fs) = elim (Bool-cases (is_sensitive key)) [
      | inl e ↦ rw e ((λ _. refl), tt, clean_fields fs)
      | inr e ↦ rw e ((λ h. cc), clean item, clean_fields fs)
    ]

  mutual
    unfolding redact IsClean

    fixed : (v : Value) → IsClean v → redact v ≡ v
    fixed null h = refl
    fixed (bool b) h = refl
    fixed (num n) h = refl
    fixed (text s) h = refl
    fixed (arr xs) h = ap arr (fixed_items xs h)
    fixed (obj fs) h = ap obj (fixed_fields fs h)

    fixed_items : (xs : Items) → AllClean xs → redact_items xs ≡ xs
    fixed_items nil h = refl
    fixed_items (cons x xs) h = cc (fixed x h.0, fixed_items xs h.1)

    fixed_fields : (fs : Fields) → FieldsClean fs → redact_fields fs ≡ fs
    fixed_fields end h = refl
    fixed_fields (field key item fs) h = elim (Bool-cases (is_sensitive key)) [
      | inl e ↦ rw e (cc (h.0 e, fixed_fields fs h.2))
      | inr e ↦ rw e (cc (fixed item h.1, fixed_fields fs h.2))
    ]

  -- What `redact` returns has no object with a sensitive key and another value than the mark, at
  -- any depth; and a value that has none is returned as it is, so that a second pass changes
  -- nothing.
  pub redact-IsClean :
      (v : Value) → IsClean (redact v) × (IsClean v → redact v ≡ v) × (redact (redact v) ≡ redact v)
  redact-IsClean v = (clean v, fixed v, fixed (redact v) (clean v))
