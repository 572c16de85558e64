-- ===== src/Probe/Examples.antt =====
-- Tests of internal/probe, and its theorems at concrete inputs.
use ardvark.Prelude.{
  ◌≡◌, ◌↔◌, refl, true, false, [], ◌∷◌, ◌++◌, Option, some, Text, codes, ascii_text, map, text_eq,
  split, has_prefix,
}
use ardvark.Frontier.Picked.{Contains}
use ardvark.Failure.{Failure}
use ardvark.Probe.{
  Response, broken, fetched, probe_well_known_url, probe_well_known_base, well_known_paths,
  parse_agentmap_directives, directive,
}
use ardvark.Probe.Aliases.{probe_well_known_base_lem, up_to_hit, reported}
use ardvark.Probe.Directives.{Distinct, Names, parse_agentmap_directives-Names}

abbrev busy_failure : Failure
busy_failure = record {
  text = codes "503";
  canceled = false;
  classified = some true;
  timeout = false;
}

-- The preferred name is overloaded, and every other URL serves a page.
abbrev overloaded : Text → Response
overloaded url = elim (text_eq url (codes "https://a.example/.well-known/ard.json")) [
  | true ↦ broken (record { failure = busy_failure; typed = some (503, codes "503") })
  | false ↦
      fetched (record {
        url = url;
        status = 200;
        content_type = codes "text/html";
        body = codes "<html>";
      })
]

probe_well_known_base_lem_example :
    ((probe_well_known_base ascii_text overloaded (codes "https://a.example")).0
      ≡ up_to_hit
          (probe_well_known_url ascii_text overloaded)
          (map (λ path. codes "https://a.example" ++ path) well_known_paths))
    × ((probe_well_known_base ascii_text overloaded (codes "https://a.example")).1
        ≡ reported (
            map
              (probe_well_known_url ascii_text overloaded)
              (map (λ path. codes "https://a.example" ++ path) well_known_paths)))
probe_well_known_base_lem_example =
    probe_well_known_base_lem ascii_text overloaded (codes "https://a.example")

abbrev as_is : Text → Option Text
as_is url = some url

abbrev robots_text : Text
robots_text =
    codes
      "User-agent: *\nAgentmap: https://a.example/c.json\n# agentmap: x\nAGENTMAP:https://a.example/c.json"

parse_agentmap_directives-Names_example :
    Distinct (parse_agentmap_directives ascii_text as_is robots_text)
    × ((url : Text)
        → Contains url (parse_agentmap_directives ascii_text as_is robots_text)
          ↔ Names ascii_text as_is (split 10 robots_text) url)
parse_agentmap_directives-Names_example =
    parse_agentmap_directives-Names ascii_text as_is robots_text

single_catalog :
    parse_agentmap_directives ascii_text as_is robots_text ≡ codes "https://a.example/c.json" ∷ []
unfolding parse_agentmap_directives directive split has_prefix text_eq
single_catalog = refl
