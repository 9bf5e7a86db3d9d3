-- ===== src/Llm/Stub.antt =====
-- internal/llm/stub/stub.go: the offline provider with canned answers. The documents that the answers
-- spell are beside them, for the readers of JSON that are told to read them so.
use cloud_sre_agent.Prelude.{
  ◌++◌, Option, none, some, Result, ok, err, Text, codes, text_eq, if◌then◌else◌,
}
use cloud_sre_agent.Llm.{Request, Response}
use cloud_sre_agent.Llm.Router.{Provider}

abbrev pub provider_name : Text
provider_name = codes "stub"

abbrev schema_triage : Text
schema_triage = codes "TriageResult"

abbrev schema_analysis : Text
schema_analysis = codes "Analysis"

abbrev schema_remediation : Text
schema_remediation = codes "RemediationPlan"

abbrev pub triage_json : Text
triage_json =
    codes "{\"category\":\"stub\","
    ++ (codes "\"severity\":\"info\","
        ++ (codes "\"confidence\":1,"
            ++ (codes "\"actionable\":true,"
                ++ (codes "\"reasoning\":\"stub provider: deterministic offline triage\","
                    ++ codes "\"next_actions\":[\"review stub output\"]}"))))

abbrev pub analysis_json : Text
analysis_json =
    codes "{\"root_cause\":\"stub provider: deterministic offline root cause\","
    ++ (codes "\"proposed_fix\":\"stub provider: no real fix\","
        ++ (codes "\"key_points\":[\"offline stub\"]," ++ codes "\"confidence\":1}"))

abbrev pub remediation_json : Text
remediation_json =
    codes "{\"root_cause_analysis\":\"stub provider: deterministic offline analysis\","
    ++ (codes "\"proposed_fix\":\"stub provider: no real fix\","
        ++ (codes "\"code_patch\":\"// stub patch: no-op (non-production offline provider)\\n\","
            ++ (codes "\"priority\":\"info\","
                ++ (codes "\"estimated_effort\":\"none\","
                    ++ codes "\"target_file\":\"stub.txt\"}"))))

-- `responseFor`
unfoldable pub response_for : Text → Text
unfolding text_eq
response_for schema_name =
    if text_eq schema_name schema_triage
    then triage_json
    else if text_eq schema_name schema_analysis
    then analysis_json
    else if text_eq schema_name schema_remediation
    then remediation_json
    else codes "{}"

module _ {W : Type 0} (ctx_err : W → Option Text) where
  -- `Generate`
  unfoldable pub generate : Request → W → Result Text Response × W
  unfolding response_for
  generate req w =
      let answer : Response = record {
        text = response_for req.schema_name;
        model = provider_name;
        finish_reason = codes "stop";
      } in
      (elim (ctx_err w) [ some e ↦ err e | none ↦ ok answer ], w)

  -- `New`, with `Name`
  unfoldable pub new : Provider W
  new = record { name = provider_name; generate = generate }
