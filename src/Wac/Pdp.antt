-- ===== src/Wac/Pdp.antt =====
-- src/wac/pdp.rs: the decision point. Given the applicable ACL's triples, which modes an agent
-- holds on the governed resource.
pub mod Grouping
pub mod Grants
pub mod Decision
mod Tests
use quadpod.Prelude.{
  Bool, true, false, ◌&&◌, ◌||◌, Option, none, some, List, [], ◌∷◌, ◌++◌, any, retain,
  if◌then◌else◌, is_some, ◌==◌, nat_eq, list_eq, Text, codes,
}
use quadpod.Terms.{Term, Triple, NamedOrBlankNode, node_eq}
use quadpod.Wac.{Mode, read, write, append, control, AccessModes}

-- src/auth/agent.rs
pub data Agent : Type 0 where
  public : Agent
  web_id : Text → Agent

abbrev pub acl_agent : Text
acl_agent = codes "http://www.w3.org/ns/auth/acl#agent"

abbrev pub acl_agent_class : Text
acl_agent_class = codes "http://www.w3.org/ns/auth/acl#agentClass"

abbrev pub acl_access_to : Text
acl_access_to = codes "http://www.w3.org/ns/auth/acl#accessTo"

abbrev pub acl_default : Text
acl_default = codes "http://www.w3.org/ns/auth/acl#default"

abbrev pub acl_mode : Text
acl_mode = codes "http://www.w3.org/ns/auth/acl#mode"

abbrev pub acl_read : Text
acl_read = codes "http://www.w3.org/ns/auth/acl#Read"

abbrev pub acl_write : Text
acl_write = codes "http://www.w3.org/ns/auth/acl#Write"

abbrev pub acl_append : Text
acl_append = codes "http://www.w3.org/ns/auth/acl#Append"

abbrev pub acl_control : Text
acl_control = codes "http://www.w3.org/ns/auth/acl#Control"

abbrev pub acl_authenticated_agent : Text
acl_authenticated_agent = codes "http://www.w3.org/ns/auth/acl#AuthenticatedAgent"

abbrev pub foaf_agent : Text
foaf_agent = codes "http://xmlns.com/foaf/0.1/Agent"

unfoldable pub recognized_mode : Text → Option Mode
recognized_mode iri =
    if iri == acl_read
    then some read
    else if iri == acl_write
    then some write
    else if iri == acl_append
    then some append
    else if iri == acl_control
    then some control
    else none

-- The ACL grouped by subject; the source's map holds its groups in no fixed order.
abbrev pub Groups : Type 0
Groups = List (NamedOrBlankNode × List Triple)

-- `index.entry(&t.subject).or_default().push(t)`
unfoldable pub push : Triple → Groups → Groups
push t [] = (t.subject, t ∷ []) ∷ []
push t ((s, ts) ∷ gs) = if s == t.subject then (s, ts ++ t ∷ []) ∷ gs else (s, ts) ∷ push t gs

unfoldable pub push_all : Groups → List Triple → Groups
push_all index [] = index
push_all index (t ∷ ts) = push_all (push t index) ts

unfoldable pub by_subject : List Triple → Groups
unfolding push_all
by_subject acl = push_all [] acl

abbrev pub is_iri : Term → Text → Bool
is_iri (Term.named_node n) iri = n == iri
is_iri _ iri = false

unfoldable pub has_object : List Triple → Text → Text → Bool
has_object authorization predicate object_iri =
    any (λ t. t.predicate == predicate && is_iri t.object object_iri) authorization

unfoldable pub matches_agent : List Triple → Agent → Bool
matches_agent authorization public = has_object authorization acl_agent_class foaf_agent
matches_agent authorization (web_id webid) =
    has_object authorization acl_agent_class foaf_agent
    || (has_object authorization acl_agent_class acl_authenticated_agent
        || has_object authorization acl_agent webid)

abbrev pub no_modes : AccessModes
no_modes = record { read = false; write = false; append = false; control = false }

unfoldable pub grant : Option Mode → AccessModes → AccessModes
grant (some read) m = record m { read = true }
grant (some write) m = record m { write = true }
grant (some append) m = record m { append = true }
grant (some control) m = record m { control = true }
grant none m = m

abbrev pub object_mode : Term → Option Mode
object_mode (Term.named_node n) = recognized_mode n
object_mode _ = none

-- The loop over one authorization's mode triples.
unfoldable pub grant_modes : List Triple → AccessModes → AccessModes
grant_modes [] granted = granted
grant_modes (t ∷ ts) granted =
    grant_modes ts
      (if t.predicate == acl_mode then grant (object_mode t.object) granted else granted)

unfoldable pub decide_groups : Groups → Text → Agent → Text → AccessModes → AccessModes
decide_groups [] scope agent governed granted = granted
decide_groups ((s, authorization) ∷ gs) scope agent governed granted =
    decide_groups gs scope agent governed (
      if has_object authorization scope governed && matches_agent authorization agent
      then grant_modes authorization granted
      else granted)

unfoldable pub decide : List Triple → Agent → Text → Bool → AccessModes
decide acl agent governed_iri inherited =
    decide_groups (by_subject acl) (if inherited then acl_default else acl_access_to) agent
      governed_iri no_modes

abbrev pub is_named_node : Term → Bool
is_named_node (Term.named_node n) = true
is_named_node _ = false

unfoldable pub names_someone : List Triple → Bool
names_someone authorization =
    has_object authorization acl_agent_class foaf_agent
    || (has_object authorization acl_agent_class acl_authenticated_agent
        || any (λ t. t.predicate == acl_agent && is_named_node t.object) authorization)

unfoldable pub has_recognized_mode : List Triple → Bool
has_recognized_mode authorization =
    any (λ t. t.predicate == acl_mode && is_some (object_mode t.object)) authorization

unfoldable pub grants_anything : List Triple → Text → Bool
grants_anything acl governed_iri =
    any
      (λ g.
        (has_object g.1 acl_access_to governed_iri || has_object g.1 acl_default governed_iri)
        && (names_someone g.1 && has_recognized_mode g.1))
      (by_subject acl)
