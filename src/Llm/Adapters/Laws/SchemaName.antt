-- ===== src/Llm/Adapters/Laws/SchemaName.antt =====
-- The names of schemas that OpenAI accepts.
use cloud_sre_agent.Prelude.{
  ℕ, suc, zero, ◌≤◌, ◌≡◌, refl, true, false, [], ◌∷◌, map, take, length, Text, is_empty, All, arith,
}
use cloud_sre_agent.Llm.Adapters.OpenAi.{
  is_name_byte, clean_byte, sanitize_schema_name, default_schema_name,
}

-- The form ^[a-zA-Z0-9_-]{1,64}$.
pub record IsSchemaName (t : Text) : Type 0 where
  pub some_bytes : is_empty t ≡ false
  pub few_bytes : length t ≤ 64
  pub name_bytes : All (λ c. is_name_byte c ≡ true) t

clean_byte-is_name : (c : ℕ) → is_name_byte (clean_byte c) ≡ true
unfolding is_name_byte clean_byte
clean_byte-is_name c = ground arith

take-clean : (n : ℕ) (t : Text) → All (λ c. is_name_byte c ≡ true) (take n (map clean_byte t))
take-clean zero t = tt
take-clean (suc n) [] = tt
take-clean (suc n) (c ∷ t) = (clean_byte-is_name c, take-clean n t)

length-take : (n : ℕ) (t : Text) → length (take n t) ≤ n
length-take zero t = omega arith
length-take (suc n) [] = omega arith
length-take (suc n) (c ∷ t) = omega (arith, length-take n t)

-- A text that keeps to the form is left alone.
take-clean_same :
    (n : ℕ) (t : Text)
    → length t ≤ n
    → All (λ c. is_name_byte c ≡ true) t
    → take n (map clean_byte t) ≡ t
unfolding clean_byte
take-clean_same zero [] h a = refl
take-clean_same zero (c ∷ t) h a = absurd (omega (arith, h))
take-clean_same (suc n) [] h a = refl
take-clean_same (suc n) (c ∷ t) h (first, a) =
    rw (first, take-clean_same n t (omega (arith, h)) a) refl

default_bytes : All (λ c. is_name_byte c ≡ true) default_schema_name
unfolding is_name_byte
default_bytes = (refl, (refl, (refl, (refl, (refl, (refl, (refl, (refl, tt))))))))

sanitize_schema_name-IsSchemaName : (t : Text) → IsSchemaName (sanitize_schema_name t)
unfolding sanitize_schema_name
sanitize_schema_name-IsSchemaName [] = record {
  some_bytes = refl;
  few_bytes = omega arith;
  name_bytes = default_bytes;
}
sanitize_schema_name-IsSchemaName (c ∷ t) = record {
  some_bytes = refl;
  few_bytes = length-take 64 (map clean_byte (c ∷ t));
  name_bytes = take-clean 64 (c ∷ t);
}

-- `sanitizeSchemaName` turns every name into one of the form that OpenAI asks for, and leaves a name that
-- has the form as it is.
pub sanitize_schema_name-keeps :
    (t : Text)
    → IsSchemaName (sanitize_schema_name t) × (IsSchemaName t → sanitize_schema_name t ≡ t)
unfolding sanitize_schema_name
sanitize_schema_name-keeps [] =
    (sanitize_schema_name-IsSchemaName [], λ h. absurd (ground (arith, h.some_bytes)))
sanitize_schema_name-keeps (c ∷ t) = (
  sanitize_schema_name-IsSchemaName (c ∷ t),
  λ h. take-clean_same 64 (c ∷ t) h.few_bytes h.name_bytes,
)
