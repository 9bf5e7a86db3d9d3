-- ===== src/Sanitizer/Identifiers.antt =====
-- internal/security/sanitizer.go: the rules of `defaultRules` for patients, addresses, dates and numbers.
use cloud_sre_agent.Prelude.{ℕ, ◌==◌, not, ◌||◌, [], ◌∷◌, none, some, codes}
use cloud_sre_agent.Sanitizer.Matching.{
  Regex, set, seq, either, many, boundary, group, is_word, exactly, up_to, at_least, optional,
}
use cloud_sre_agent.Sanitizer.Patterns.{
  Rule, placeholder, is_in, is_digit, is_letter, alphanumeric_or, is_blank, lit, lit_folded, all_of,
  any_of,
}

unfoldable pub medical_id : Rule
unfolding lit_folded all_of any_of at_least optional
medical_id =
    let person = either (lit_folded (codes "member")) (lit_folded (codes "patient")) in
    let blanks = many is_blank in
    let mark = set (is_in (codes ":#=-")) in
    record {
      name = codes "medical_id";
      pattern = all_of (
          boundary
          ∷ group (
              any_of (
                all_of (
                  lit_folded (codes "mrn")
                  ∷ boundary
                  ∷ optional (set (λ c. c == 35))
                  ∷ blanks
                  ∷ optional mark
                  ∷ blanks
                  ∷ [])
                ∷ all_of (
                    person
                    ∷ blanks
                    ∷ lit_folded (codes "id")
                    ∷ boundary
                    ∷ blanks
                    ∷ optional mark
                    ∷ blanks
                    ∷ [])
                ∷ all_of (person ∷ boundary ∷ blanks ∷ mark ∷ blanks ∷ [])
                ∷ []))
          ∷ at_least 1 is_word
          ∷ []);
      repl = some placeholder;
    }

unfoldable pub dob : Rule
unfolding lit_folded all_of any_of at_least optional
dob = record {
  name = codes "dob";
  pattern = all_of (
      boundary
      ∷ group (
          all_of (
            any_of (
              lit_folded (codes "dob")
              ∷ lit_folded (codes "born")
              ∷ all_of (
                  lit_folded (codes "date")
                  ∷ at_least 1 is_blank
                  ∷ lit_folded (codes "of")
                  ∷ at_least 1 is_blank
                  ∷ lit_folded (codes "birth")
                  ∷ [])
              ∷ [])
            ∷ boundary
            ∷ many is_blank
            ∷ optional (set (is_in (codes ":=")))
            ∷ many is_blank
            ∷ []))
      ∷ at_least 1 (λ c. not (is_blank c))
      ∷ []);
  repl = some placeholder;
}

unfoldable pub email : Rule
unfolding lit all_of at_least
email = record {
  name = codes "email";
  pattern = all_of (
      boundary
      ∷ at_least 1 (alphanumeric_or (codes "._%+-"))
      ∷ lit (codes "@")
      ∷ at_least 1 (alphanumeric_or (codes ".-"))
      ∷ lit (codes ".")
      ∷ at_least 2 is_letter
      ∷ boundary
      ∷ []);
  repl = none;
}

-- A number of digits.
unfoldable pub digits : ℕ → Regex
unfolding exactly
digits n = exactly n (set is_digit)

unfoldable pub date_iso : Rule
unfolding lit all_of digits
date_iso = record {
  name = codes "date_iso";
  pattern = all_of (
      boundary
      ∷ digits 4
      ∷ lit (codes "-")
      ∷ digits 2
      ∷ lit (codes "-")
      ∷ digits 2
      ∷ boundary
      ∷ []);
  repl = none;
}

unfoldable pub date_slash : Rule
unfolding lit all_of digits up_to
date_slash = record {
  name = codes "date_slash";
  pattern = all_of (
      boundary
      ∷ digits 1
      ∷ up_to 1 (set is_digit)
      ∷ lit (codes "/")
      ∷ digits 1
      ∷ up_to 1 (set is_digit)
      ∷ lit (codes "/")
      ∷ digits 2
      ∷ up_to 2 (set is_digit)
      ∷ boundary
      ∷ []);
  repl = none;
}

unfoldable pub ssn : Rule
unfolding all_of digits
ssn = record {
  name = codes "ssn";
  pattern = all_of (
      boundary
      ∷ digits 3
      ∷ set (is_in (codes "- "))
      ∷ digits 2
      ∷ set (is_in (codes "- "))
      ∷ digits 4
      ∷ boundary
      ∷ []);
  repl = none;
}

unfoldable pub ssn_plain : Rule
unfolding all_of digits
ssn_plain = record {
  name = codes "ssn_plain";
  pattern = all_of (boundary ∷ digits 9 ∷ boundary ∷ []);
  repl = none;
}

unfoldable pub credit_card : Rule
unfolding all_of digits exactly up_to optional
credit_card =
    let spaced = seq (set is_digit) (optional (set (is_in (codes " -")))) in
    record {
      name = codes "credit_card";
      pattern =
          all_of (boundary ∷ exactly 12 spaced ∷ up_to 6 spaced ∷ set is_digit ∷ boundary ∷ []);
      repl = none;
    }

unfoldable pub phone : Rule
unfolding lit all_of digits up_to optional
phone =
    let mark = set (λ c. is_blank c || is_in (codes ".-") c) in
    record {
      name = codes "phone";
      pattern = all_of (
          optional
            (all_of (lit (codes "+") ∷ digits 1 ∷ up_to 2 (set is_digit) ∷ optional mark ∷ []))
          ∷ either (all_of (lit (codes "(") ∷ digits 3 ∷ lit (codes ")") ∷ [])) (digits 3)
          ∷ mark
          ∷ digits 3
          ∷ mark
          ∷ digits 4
          ∷ boundary
          ∷ []);
      repl = none;
    }
