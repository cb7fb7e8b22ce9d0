-- ===== src/Wac/Pdp/Tests.antt =====
-- Runs of the definitions of src/wac/pdp.rs, and its theorems at concrete inputs.
use native.Mathlib.Decide.{ℕ_discrete}
use quadpod.Prelude.{list_beq, ◌≡◌, ◌↔◌, refl, Bool, true, false, List, [], ◌∷◌, Text, codes}
use quadpod.Terms.{Term, Triple, NamedOrBlankNode, NamedOrBlankNode-discrete}
use quadpod.Wac.{Mode, read, append}
use quadpod.Wac.Pdp.{
  Agent, public, web_id, acl_agent, acl_agent_class, acl_access_to, acl_mode, acl_read, acl_append,
  foaf_agent, recognized_mode, push, push_all, by_subject, has_object, matches_agent, grant,
  grant_modes, decide_groups, decide, names_someone, has_recognized_mode, grants_anything, no_modes,
}
use quadpod.Wac.Pdp.Grouping.{of_subject}
use quadpod.Wac.Pdp.Decision.{has, authorizes, scope_of, decide_iff}
use quadpod.Wac.Pdp.Grants.{grants_anything_iff}

pdp_runs : Unit {0}
unfolding decide decide_groups by_subject push_all push has_object matches_agent grant_modes grant
    recognized_mode names_someone has_recognized_mode grants_anything NamedOrBlankNode-discrete
    ℕ_discrete list_beq
pdp_runs = tt

abbrev doc : Text
doc = codes "https://pod/a"

abbrev alice : Text
alice = codes "https://alice/#me"

abbrev rule : Text → Text → Text → Triple
rule s p o = record {
  subject = NamedOrBlankNode.named_node s;
  predicate = p;
  object = Term.named_node o;
}

-- Everyone may read, and Alice may append too.
abbrev document : List Triple
document =
    rule (codes "#r") acl_access_to doc
    ∷ rule (codes "#r") acl_agent_class foaf_agent
    ∷ rule (codes "#a") acl_access_to doc
    ∷ rule (codes "#r") acl_mode acl_read
    ∷ rule (codes "#a") acl_agent alice
    ∷ rule (codes "#a") acl_mode acl_append
    ∷ []

decide_tests :
    (decide document public doc false ≡ record no_modes { read = true })
    × (decide document (web_id alice) doc false ≡ record no_modes { read = true; append = true })
    × (decide document (web_id alice) doc true ≡ no_modes)
    × (grants_anything document doc ≡ true)
    × (grants_anything document (codes "https://pod/") ≡ false)
unfolding pdp_runs
decide_tests = (refl, refl, refl, refl, refl)

decide_iff_example : (has (decide document (web_id alice) doc false) append ≡ true) ↔ (
    (s : NamedOrBlankNode) × (authorizes
        (scope_of false)
        (web_id alice)
        doc
        append
        (of_subject s document)
      ≡ true))
decide_iff_example = decide_iff document (web_id alice) doc false append

public_reads : has (decide document public doc false) read ≡ true
unfolding pdp_runs
public_reads = refl

grants_anything_iff_example : (grants_anything document doc ≡ true) ↔ (
    (agent : Agent) × (inherited : Bool) × (mode : Mode) × (has
        (decide document agent doc inherited)
        mode
      ≡ true))
grants_anything_iff_example = grants_anything_iff document doc
