-- ===== src/Patch/Ground.antt =====
-- `ground_insertions` of src/patch.rs: when a patch can create a resource.
use quadpod.Prelude.{◌≡◌, some, List, length}
use quadpod.Terms.{Triple}
use quadpod.Patch.{Pattern, Patch}
use quadpod.Patch.Document.{ground_patterns}

record Grounded (ps : List Pattern) : Type 0 where
  triples : List Triple
  grounded : ground_patterns ps ≡ some triples
  same_length : length triples ≡ length ps
