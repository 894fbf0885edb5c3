-- ===== src/Examples/Data.antt =====
-- A small catalog: a Service with two Procedures, and one Procedure Version with an item, a Step and
-- a fee.
use bardi.Prelude.{String, true, false, none, some, List, [], ◌∷◌, pos}
use bardi.Calendar.{Date}
use bardi.Facts.{FactValue, Object, PreparedFacts}
use bardi.Facts.Registry.{fact_definitions}
use bardi.Rules.{RuleOperator, Operand, Predicate, Predicates}
use bardi.Trust.{Freshness, VerificationState}
use bardi.Catalog.{
  LocalizedText, ServiceSnapshot, SourceSnapshot, EvidenceLinkSnapshot, FeeSnapshot, DateField,
  ProcedureVersionSnapshot, KnowledgeSnapshot,
}
use bardi.Public.{
  Locale, PlanningInput, PlanResult, PublicSource, PublicChecklistItem, PublicStep, PublicFee,
  RoutingStatus,
}

abbrev pub today : Date
today = record { year = 2026; month = 7; day = 1 }

abbrev pub last_year : Date
last_year = record { year = 2025; month = 7; day = 1 }

abbrev pub next_year : Date
next_year = record { year = 2027; month = 7; day = 1 }

abbrev text : LocalizedText
text = record { ar = "ar"; en = "en" }

abbrev pub citizen_is : String → Predicate
citizen_is s =
    Predicate.predicate RuleOperator.eq (some "citizenship") (Operand.one (FactValue.str s))
      Predicates.nil

abbrev pub service : ServiceSnapshot
service = record {
  semantic_id = "passport";
  text = text;
  candidates =
      record {
        procedure_semantic_id = "passport_abroad";
        text = text;
        selection_predicate = citizen_is "other";
      }
      ∷ record {
        procedure_semantic_id = "passport_first";
        text = text;
        selection_predicate = citizen_is "egyptian";
      }
      ∷ [];
  questions = [];
  contradictions = [];
  is_active = true;
}

abbrev pub source : SourceSnapshot
source = record {
  semantic_id = "source_1";
  authority = record { semantic_id = "ministry"; name = text };
  title = "Law 97";
  locator = "article 2";
  classification = "official";
  retrieved_on = last_year;
  published_on = none;
  effective_from = none;
  effective_to = none;
  reverify_on = some next_year;
  observation_date = none;
  observation_context = "";
}

abbrev pub link : EvidenceLinkSnapshot
link = record {
  passage = "";
  location = "";
  applicability_context = "";
  support_status = "supports";
  verification_state = VerificationState.current;
  sources = source ∷ [];
  effective_from = none;
  effective_to = none;
  retrieved_on = none;
  verified_on = some last_year;
  reverify_on = none;
  semantic_id = "link_1";
}

abbrev pub fee : FeeSnapshot
fee = record {
  semantic_id = "fee_1";
  text = text;
  value_state = "known";
  amount = some (pos 500);
  minimum_amount = none;
  maximum_amount = none;
  currency = "EGP";
  fee_type = "government";
  display_order = pos 1;
  applicability = some (citizen_is "egyptian");
  scope = "procedure";
  eligibility_basis_id = none;
  effective_from = none;
  effective_to = none;
  verification_state = VerificationState.current;
  verified_on = some last_year;
  reverify_on = none;
  evidence_links = link ∷ [];
}

abbrev pub version : ProcedureVersionSnapshot
version = record {
  semantic_id = "passport_first_v1";
  procedure_semantic_id = "passport_first";
  text = text;
  applicability = citizen_is "egyptian";
  rules_contract_version = "v1";
  state = "published";
  effective_from = DateField.a_date last_year;
  effective_to = DateField.no_date;
  published_at = none;
  published_by_id = none;
  checklist_items =
      record {
        semantic_id = "birth_certificate";
        text = text;
        classification = "official_requirement";
        document_type_id = none;
        quantity = pos 1;
        original_quantity = pos 1;
        copy_quantity = pos 0;
        display_order = pos 1;
        applicability = none;
        scope = "procedure";
        scope_reference = "";
        effective_from = none;
        effective_to = none;
        verification_state = VerificationState.current;
        verified_on = some last_year;
        reverify_on = none;
        evidence_links = link ∷ [];
      }
      ∷ [];
  eligibility_bases = [];
  steps =
      record {
        semantic_id = "apply";
        text = text;
        phase = "submission";
        phase_order = pos 1;
        slot = pos 1;
        applicability = none;
        scope = "procedure";
        eligibility_basis_id = none;
        effective_from = none;
        effective_to = none;
        verification_state = VerificationState.current;
        verified_on = some last_year;
        reverify_on = none;
        evidence_links = link ∷ [];
      }
      ∷ [];
  warnings = [];
  fees = fee ∷ [];
  dependencies = [];
  service_point_associations = [];
}

abbrev pub snapshot : KnowledgeSnapshot
snapshot = record {
  fact_definitions = fact_definitions;
  services = service ∷ [];
  procedure_versions = version ∷ [];
  service_points = [];
  service_point_versions = [];
}

abbrev pub planning_input : PlanningInput
planning_input = record {
  service_id = "passport";
  facts = ("citizenship", Object.value (FactValue.str "egyptian")) ∷ [];
  locale = Locale.en;
  evaluation_date = today;
}

abbrev pub facts : PreparedFacts
facts = record {
  values = ("citizenship", FactValue.str "egyptian") ∷ [];
  submitted_keys = "citizenship" ∷ [];
  missing_source_dependencies = [];
}

abbrev pub shown_sources : List PublicSource
shown_sources =
    record {
      id = "source_1";
      authority_id = "ministry";
      title = "Law 97";
      locator = "article 2";
      classification = "official";
      retrieved_on = last_year;
    }
    ∷ []

abbrev fresh : Freshness
fresh = record {
  state = VerificationState.current;
  verified_on = some last_year;
  reverify_on = none;
}

abbrev pub shown_items : List PublicChecklistItem
shown_items =
    record {
      id = "birth_certificate";
      text = text;
      classification = "official_requirement";
      classification_label = record {
        ar = "\u{645}\u{62a}\u{637}\u{644}\u{628} \u{631}\u{633}\u{645}\u{64a}";
        en = "Official Requirement";
      };
      quantity = pos 1;
      original_quantity = pos 1;
      copy_quantity = pos 0;
      document_type_id = none;
      scope = "procedure";
      sources = shown_sources;
      freshness = fresh;
      eligibility_basis_id = none;
    }
    ∷ []

abbrev pub shown_steps : List PublicStep
shown_steps =
    record {
      id = "apply";
      text = text;
      phase = "submission";
      sources = shown_sources;
      freshness = fresh;
      scope = "procedure";
      eligibility_basis_id = none;
    }
    ∷ []

abbrev pub shown_fees : List PublicFee
shown_fees =
    record {
      id = "fee_1";
      text = text;
      value_state = "known";
      amount = some (pos 500);
      minimum_amount = none;
      maximum_amount = none;
      currency = "EGP";
      fee_type = "government";
      current_value_unknown = false;
      sources = shown_sources;
      freshness = fresh;
    }
    ∷ []

abbrev pub shown_plan : PlanResult
shown_plan = record {
  service_id = "passport";
  procedure_id = "passport_first";
  procedure_version_id = "passport_first_v1";
  title = text;
  checklist_items = shown_items;
  steps = shown_steps;
  warnings = [];
  fees = shown_fees;
  eligibility_bases = [];
  inconclusive_basis_ids = [];
  dependencies = [];
  routing = record {
    status = RoutingStatus.unresolved;
    destinations = [];
    verification_sources = [];
  };
  inconclusive_sections = [];
}
