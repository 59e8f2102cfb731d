-- ===== src/Guardrails/Tables.antt =====
-- The pattern tables of guardrails.py, as they are written there.
use llm_sentinel.Prelude.{String, List, [], ◌∷◌}

-- PROMPT_INJECTION_PATTERNS: an expression and its category.
abbrev pub prompt_injection_patterns : List (String × String)
prompt_injection_patterns =
    (
      "(?i)ignore\\s+(all\\s+)?(previous|prior|above|earlier)\\s+(instructions?|prompts?|rules?|directions?)",
      "instruction_override",
    )
    ∷ (
      "(?i)disregard\\s+(all\\s+)?(previous|prior|your)\\s+(instructions?|prompts?|rules?|programming)",
      "instruction_override",
    )
    ∷ (
      "(?i)forget\\s+(all\\s+)?(previous|prior|your)\\s+(instructions?|context|rules?)",
      "instruction_override",
    )
    ∷ (
      "(?i)override\\s+(your|all|the)\\s+(instructions?|rules?|programming|directives?)",
      "instruction_override",
    )
    ∷ (
      "(?i)do\\s+not\\s+follow\\s+(your|the|any)\\s+(previous|original|initial)\\s+(instructions?|rules?)",
      "instruction_override",
    )
    ∷ ("(?i)you\\s+are\\s+now\\s+(a|an|the)\\s+", "role_hijack")
    ∷ (
      "(?i)act\\s+as\\s+(if\\s+you\\s+are\\s+|a\\s+|an\\s+)?(?:unrestricted|unfiltered|uncensored|evil|malicious)",
      "role_hijack",
    )
    ∷ (
      "(?i)pretend\\s+(you\\s+are|to\\s+be)\\s+(a|an)?\\s*(?:unrestricted|different|new)\\s*(AI|assistant|model)?",
      "role_hijack",
    )
    ∷ ("(?i)from\\s+now\\s+on\\s+you\\s+(will|must|should|are)", "role_hijack")
    ∷ ("(?i)switch\\s+to\\s+(\\w+\\s+)?mode", "role_hijack")
    ∷ ("(?i)enter\\s+(developer|debug|admin|god|sudo|root|unrestricted)\\s+mode", "role_hijack")
    ∷ (
      "(?i)(show|reveal|print|display|output|repeat|tell\\s+me)\\s+(your|the)\\s+(system\\s+)?(prompt|instructions?|rules?|programming|directives?)",
      "prompt_extraction",
    )
    ∷ (
      "(?i)what\\s+(are|is)\\s+your\\s+(system\\s+)?(prompt|instructions?|rules?|initial\\s+prompt)",
      "prompt_extraction",
    )
    ∷ (
      "(?i)(give|share|leak|expose)\\s+(me\\s+)?(your|the)\\s+(system|original|initial)\\s+(prompt|instructions?)",
      "prompt_extraction",
    )
    ∷ ("(?i)---+\\s*(new|real|actual|true)\\s+(instructions?|prompt|system)", "delimiter_attack")
    ∷ ("(?i)<\\|?(system|im_start|endoftext|INST)\\|?>", "delimiter_attack")
    ∷ ("(?i)\\[INST\\]|\\[\\/INST\\]|\\[SYSTEM\\]", "delimiter_attack")
    ∷ ("(?i)<<\\s*SYS\\s*>>|<<\\s*/SYS\\s*>>", "delimiter_attack")
    ∷ ("(?i)AI,?\\s+(please\\s+)?(ignore|disregard|forget|override)", "indirect_injection")
    ∷ ("(?i)attention\\s+(AI|model|assistant|language\\s+model)", "indirect_injection")
    ∷ ("(?i)IMPORTANT:\\s*(ignore|override|disregard|new\\s+instructions?)", "indirect_injection")
    ∷ []

-- JAILBREAK_PATTERNS: likewise.
abbrev pub jailbreak_patterns : List (String × String)
jailbreak_patterns =
    ("(?i)\\bDAN\\b.*\\b(prompt|mode|jailbreak|do\\s+anything)", "dan_jailbreak")
    ∷ ("(?i)\\b(DAN|STAN|DUDE|AIM|KEVIN|MONGO)\\s*(mode|prompt|version|[0-9])", "named_jailbreak")
    ∷ ("(?i)jailbr[ea]+k(ed|ing)?", "jailbreak_mention")
    ∷ ("(?i)do\\s+anything\\s+now", "dan_jailbreak")
    ∷ (
      "(?i)(bypass|circumvent|evade|disable|turn\\s+off|remove)\\s+(your\\s+)?(safety|content|ethical)\\s*(filter|guard|check|restriction|limit)",
      "safety_bypass",
    )
    ∷ (
      "(?i)(bypass|circumvent|evade|ignore)\\s+(your\\s+)?(restrictions?|limitations?|guidelines?|guardrails?|policies)",
      "safety_bypass",
    )
    ∷ (
      "(?i)without\\s+(any\\s+)?(moral|ethical|safety|content)\\s*(restrictions?|filters?|guidelines?|limitations?)",
      "safety_bypass",
    )
    ∷ (
      "(?i)(respond|answer|reply|write)\\s+in\\s+(base64|hex|binary|rot13|morse|pig\\s*latin|reverse)",
      "encoding_bypass",
    )
    ∷ ("(?i)(encode|encrypt|obfuscate)\\s+(your\\s+)?(response|answer|output)", "encoding_bypass")
    ∷ (
      "(?i)translate\\s+(this|your\\s+response)\\s+(to|into)\\s+(base64|hex|binary)",
      "encoding_bypass",
    )
    ∷ (
      "(?i)(hypothetically|theoretically|in\\s+theory|for\\s+(educational|research|academic)\\s+purposes?)\\s*,?\\s*(how\\s+(would|could|can|do)\\s+(one|you|someone|I))",
      "hypothetical_bypass",
    )
    ∷ (
      "(?i)imagine\\s+you\\s+(are|have)\\s+no\\s+(restrictions?|rules?|filters?|limitations?)",
      "hypothetical_bypass",
    )
    ∷ (
      "(?i)in\\s+a\\s+fictional\\s+(world|scenario|story)\\s+where\\s+(there\\s+are\\s+)?no\\s+rules?",
      "hypothetical_bypass",
    )
    ∷ (
      "(?i)s\\.p\\.l\\.i\\.t|s\\s+p\\s+l\\s+i\\s+t|b\\.o\\.m\\.b|h\\.a\\.c\\.k",
      "token_manipulation",
    )
    ∷ []

-- DATA_LEAKAGE_PATTERNS: an expression, what replaces it, and its category.
abbrev pub data_leakage_patterns : List (String × String × String)
data_leakage_patterns =
    ("sk-ant-[a-zA-Z0-9\\-]{20,}", "[LEAKED_ANTHROPIC_KEY]", "api_key")
    ∷ ("sk-[a-zA-Z0-9]{20,}", "[LEAKED_OPENAI_KEY]", "api_key")
    ∷ ("AKIA[0-9A-Z]{16}", "[LEAKED_AWS_KEY]", "api_key")
    ∷ ("gh[pousr]_[A-Za-z0-9_]{36,}", "[LEAKED_GITHUB_TOKEN]", "api_key")
    ∷ ("xox[baprs]-[A-Za-z0-9\\-]+", "[LEAKED_SLACK_TOKEN]", "api_key")
    ∷ ("AIza[0-9A-Za-z\\-_]{35}", "[LEAKED_GOOGLE_KEY]", "api_key")
    ∷ (
      "(?i)(?:(?:/home/|/var/|/etc/|/opt/|C:\\\\\\\\|D:\\\\\\\\)[^\\s\\\"'<>]{5,})",
      "[INTERNAL_PATH]", "internal_path",
    )
    ∷ (
      "(?i)(?:https?://(?:10\\.|172\\.(?:1[6-9]|2\\d|3[01])\\.|192\\.168\\.|localhost|127\\.0\\.0\\.1)[^\\s\\\"'<>]*)",
      "[INTERNAL_URL]", "internal_url",
    )
    ∷ (
      "(?i)(?:mongodb|postgresql|mysql|redis|amqp)://[^\\s\\\"'<>]+", "[LEAKED_CONNECTION_STRING]",
      "connection_string",
    )
    ∷ (
      "(?i)(?:password|passwd|pwd|secret|token)\\s*[:=]\\s*['\\\"][^'\\\"]{8,}['\\\"]",
      "[LEAKED_SECRET]", "secret",
    )
    ∷ ("-----BEGIN\\s+(?:RSA\\s+)?PRIVATE\\s+KEY-----", "[LEAKED_PRIVATE_KEY]", "private_key")
    ∷ (
      "\\b(?:10\\.\\d{1,3}\\.\\d{1,3}\\.\\d{1,3}|172\\.(?:1[6-9]|2\\d|3[01])\\.\\d{1,3}\\.\\d{1,3}|192\\.168\\.\\d{1,3}\\.\\d{1,3})\\b",
      "[INTERNAL_IP]", "internal_ip",
    )
    ∷ []

-- `pii_patterns` of `evaluate_response`.
abbrev pub pii_patterns : List (String × String)
pii_patterns =
    ("\\b[A-Za-z0-9._%+-]+@[A-Za-z0-9.-]+\\.[A-Za-z]{2,}\\b", "[EMAIL]")
    ∷ ("\\b\\d{3}-\\d{2}-\\d{4}\\b", "[SSN]")
    ∷ ("\\b(?:4[0-9]{12}(?:[0-9]{3})?|5[1-5][0-9]{14})\\b", "[CARD]")
    ∷ []
