-- ===== src/Ard/Samples.antt =====
-- Concrete entries, for the tests.
use ardvark.Prelude.{List, [], ◌∷◌, Text, codes, Option, some}
use ardvark.Ard.Document.{Entry}

abbrev pub nameless : Entry
nameless = record {
  identifier = [];
  display_name = codes "Tool";
  entry_type = codes "application/mcp-server";
  url = codes "https://a.example/t";
  data_json = [];
  description = [];
  tags = [];
  capabilities = [];
  representative_queries = [];
  version = [];
  updated_at = [];
  raw = [];
}

abbrev pub titled : Text → Entry
titled id = record nameless { identifier = id }

-- The identifier `b` occurs twice.
abbrev pub entries : List Entry
entries = titled (codes "a") ∷ titled (codes "b") ∷ nameless ∷ titled (codes "b") ∷ []

abbrev pub plain_ascii : Text → Option Text
plain_ascii s = some s
