-- ===== src/Types.antt =====
-- privacy_policy/privacy_types.h: the enums, the records and their printed names.
use thorium_frugal.Base.{ℕ, Bool, true, false, [], Bytes, codes}

pub data PrivacyDecision : Type 0 where
  allow block : PrivacyDecision

abbrev pub is_block : PrivacyDecision → Bool
is_block block = true
is_block allow = false

pub data PartyContext : Type 0 where
  first_party same_site third_party : PartyContext

pub data TrackerClassification : Type 0 where
  not_tracker known_tracker unclassified : TrackerClassification

pub data ResourceType : Type 0 where
  main_frame sub_frame script image stylesheet font xhr_fetch ping_beacon : ResourceType
  web_socket media other : ResourceType

-- `static_cast<int>`.
unfoldable pub resource_index : ResourceType → ℕ
resource_index main_frame = 0
resource_index sub_frame = 1
resource_index script = 2
resource_index image = 3
resource_index stylesheet = 4
resource_index font = 5
resource_index xhr_fetch = 6
resource_index ping_beacon = 7
resource_index web_socket = 8
resource_index media = 9
resource_index other = 10

pub record RuleMatch : Type 0 where
  pub matched : Bool
  pub rule_id : Bytes
  pub pattern : Bytes
  pub is_allow_rule : Bool

-- The member initialisers.
abbrev pub no_match : RuleMatch
no_match = record { matched = false; rule_id = []; pattern = []; is_allow_rule = false }

pub record PrivacyEvaluationResult : Type 0 where
  pub decision : PrivacyDecision
  pub party_context : PartyContext
  pub classification : TrackerClassification
  pub matched_rule : RuleMatch
  pub reason : Bytes
  pub exception_applied : Bool

-- The result that the evaluators start from: allowed, no tracker, no rule.
abbrev pub initial_result : PartyContext → PrivacyEvaluationResult
initial_result party = record {
  decision = allow;
  party_context = party;
  classification = not_tracker;
  matched_rule = no_match;
  reason = [];
  exception_applied = false;
}

unfoldable pub decision_to_string : PrivacyDecision → Bytes
decision_to_string allow = codes "ALLOW"
decision_to_string block = codes "BLOCK"

unfoldable pub party_to_string : PartyContext → Bytes
party_to_string first_party = codes "FIRST_PARTY"
party_to_string same_site = codes "SAME_SITE"
party_to_string third_party = codes "THIRD_PARTY"

unfoldable pub classification_to_string : TrackerClassification → Bytes
classification_to_string not_tracker = codes "NOT_TRACKER"
classification_to_string known_tracker = codes "KNOWN_TRACKER"
classification_to_string unclassified = codes "UNCLASSIFIED"

unfoldable pub resource_to_string : ResourceType → Bytes
resource_to_string main_frame = codes "main_frame"
resource_to_string sub_frame = codes "sub_frame"
resource_to_string script = codes "script"
resource_to_string image = codes "image"
resource_to_string stylesheet = codes "stylesheet"
resource_to_string font = codes "font"
resource_to_string xhr_fetch = codes "xhr_fetch"
resource_to_string ping_beacon = codes "ping_beacon"
resource_to_string web_socket = codes "websocket"
resource_to_string media = codes "media"
resource_to_string other = codes "other"
