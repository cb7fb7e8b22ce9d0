-- ===== src/Wac/Prp/Table.antt =====
-- The table of the ACLs that govern a chain: the first loop of src/wac/prp.rs.
use mathlib.Core.List.{append_cancel_left, append_cancel_right}
use quadpod.Prelude.{
  ◌≡◌, ◌↔◌, refl, ap, sym, ◌∙◌, Bool, true, false, ◌&&◌, ◌||◌, Option, none, some, List, [], ◌∷◌,
  ◌++◌, any, All, is_some, if◌then◌else◌, ◌==◌, nat_eq, list_eq, text_eq, Text, codes, Map, get,
  insert, get-insert, member, arith, Bool-cases, inl, inr,
}
use quadpod.Space.{acl, ResourceUrl, suffix, aux_segment}
use quadpod.Space.Minted.{InSpace}
use quadpod.Space.Identity.{aux_of-iri}
use quadpod.Wac.Prp.{acl_iri, govern, seed}

inserted :
    (same later there : Bool) (old : Option Text) (new : Text)
    → (same ≡ true → there ≡ true)
    → (is_some (if same then some new else old) || (later && there))
      ≡ (is_some old || ((same || later) && there))
inserted true later there old new h = rw (h refl) (ground arith)
inserted false later there old new h = refl

passed :
    (same later there old : Bool)
    → (same ≡ true → there ≡ false)
    → (old || (later && there)) ≡ (old || ((same || later) && there))
passed true later there old h = rw (h refl) (ground arith)
passed false later there old h = refl

module _ (stem : Text) where
  abbrev acl_text : Text → Text
  acl_text p = stem ++ (b'/' ∷ aux_segment ++ (p ++ suffix acl))

  acl_text_injective : (p q : Text) → acl_text p ≡ acl_text q → p ≡ q
  acl_text_injective p q e = append_cancel_right p q (suffix acl) (
      append_cancel_left (b'/' ∷ aux_segment) (p ++ suffix acl) (q ++ suffix acl)
        (append_cancel_left stem _ _ e))

  -- An entry of the table: the ACL of one URL of the space, and that URL.
  pub record IsEntry (e : Text × Text) : Type 0 where
    pub path : Text
    pub key : e.0 ≡ acl_text path
    pub value : e.1 ≡ stem ++ path

  pub entry_iff :
      (r : ResourceUrl) (e : Text × Text)
      → InSpace stem r
      → IsEntry e
      → (e.0 ≡ acl_iri r) ↔ (e.1 ≡ r.iri)
  entry_iff r e here entry =
      let own : acl_iri r ≡ acl_text r.path = aux_of-iri stem r acl here in
      (
        λ h.
            let same : entry.path ≡ r.path =
              acl_text_injective entry.path r.path (sym entry.key ∙ h ∙ own) in
            entry.value ∙ ap (λ p. stem ++ p) same ∙ sym here,
        λ h.
            let same : entry.path ≡ r.path =
              append_cancel_left stem entry.path r.path (sym entry.value ∙ h ∙ here) in
            entry.key ∙ ap acl_text same ∙ sym own,
      )

  pub own-IsEntry : (r : ResourceUrl) → InSpace stem r → IsEntry (acl_iri r, r.iri)
  own-IsEntry r here = record { path = r.path; key = aux_of-iri stem r acl here; value = here }

  insert-IsEntry :
      (k v : Text) (m : Map Text) → IsEntry (k, v) → All IsEntry m → All IsEntry (insert k v m)
  unfolding insert
  insert-IsEntry k v [] e h = (e, tt)
  insert-IsEntry k v ((j, w) ∷ m) e h = elim (Bool-cases (j == k)) [
    | inl same ↦ rw same (e, h.1)
    | inr differ ↦ rw differ (h.0, insert-IsEntry k v m e (h.1))
  ]

  pub get-IsEntry :
      (k : Text) (m : Map Text) {v : Text} → All IsEntry m → get k m ≡ some v → IsEntry (k, v)
  unfolding get
  get-IsEntry k [] h e = cc
  get-IsEntry k ((j, w) ∷ m) {v} h e = elim (Bool-cases (j == k)) [
    | inl same ↦
        let key : j ≡ k = (text_eq j k).0 same in
        let value : w ≡ v = ground arith in rw (← key, ← value) (h.0)
    | inr differ ↦ get-IsEntry k m (h.1) (ground arith)
  ]

  pub govern-IsEntry :
      (chain : List ResourceUrl) (present : List Text) (m : Map Text) (values : Text)
      → All (InSpace stem) chain
      → All IsEntry m
      → All IsEntry (govern chain present (m, values)).0
  unfolding govern
  govern-IsEntry [] present m values c h = h
  govern-IsEntry (r ∷ chain) present m values c h = elim (Bool-cases (member (acl_iri r) present)) [
    | inl taken ↦ rw taken (
        govern-IsEntry chain present _ _ (c.1)
          (insert-IsEntry (acl_iri r) r.iri m (own-IsEntry r (c.0)) h))
    | inr skipped ↦ rw skipped (govern-IsEntry chain present m values (c.1) h)
  ]

  same_test :
      (r x : ResourceUrl)
      → InSpace stem r
      → InSpace stem x
      → (acl_iri x == acl_iri r) ≡ (x.iri == r.iri)
  same_test r x here there =
      let same = entry_iff r (acl_iri x, x.iri) here (own-IsEntry x there) in
      ground (arith, same.0, same.1, text_eq (acl_iri x) (acl_iri r), text_eq x.iri r.iri)

  -- An ACL that is the present one of `x` is present.
  same_present :
      (r x : ResourceUrl) (present : List Text) (found : Bool)
      → InSpace stem r
      → InSpace stem x
      → member (acl_iri x) present ≡ found
      → (x.iri == r.iri) ≡ true
      → member (acl_iri r) present ≡ found
  same_present r x present found here there known same =
      let key : acl_iri x ≡ acl_iri r =
        (entry_iff r (acl_iri x, x.iri) here (own-IsEntry x there)).1
          ((text_eq x.iri r.iri).0 same) in
      rw (← key) known

  -- The table has the ACL of `r` if that is present and `r` is in the chain.
  pub get-govern :
      (r : ResourceUrl) (chain : List ResourceUrl) (present : List Text) (m : Map Text)
      (values : Text)
      → InSpace stem r
      → All (InSpace stem) chain
      → is_some (get (acl_iri r) (govern chain present (m, values)).0) ≡ (
          is_some (get (acl_iri r) m)
          || (any (λ c. c.iri == r.iri) chain && member (acl_iri r) present))
  unfolding govern
  get-govern r [] present m values here c = ground arith
  get-govern r (x ∷ chain) present m values here c =
      let known : (found : Bool)
          → member (acl_iri x) present ≡ found
          → (x.iri == r.iri) ≡ true
          → member (acl_iri r) present ≡ found =
        λ found. same_present r x present found here (c.0) in
      elim (Bool-cases (member (acl_iri x) present)) [
        | inl taken ↦
            let rest =
              get-govern r chain present (insert (acl_iri x) x.iri m)
                (values ++ (codes "<" ++ (acl_iri x ++ codes "> "))) here (c.1) in
            rw (taken, rest, get-insert (acl_iri x) (acl_iri r) x.iri m, same_test r x here (c.0))
              (inserted (x.iri == r.iri) _ _ (get (acl_iri r) m) x.iri (known true taken))
        | inr skipped ↦
            let rest = get-govern r chain present m values here (c.1) in
            rw (skipped, rest)
              (passed (x.iri == r.iri) _ _ (is_some (get (acl_iri r) m)) (known false skipped))
      ]

  pub get-seed :
      (i : Text) (m : Map Text) → get i (seed m) ≡ (if any (λ e. e.1 == i) m then some [] else none)
  unfolding seed get
  get-seed i [] = refl
  get-seed i ((a, g) ∷ m) = rw (get-insert g i [] (seed m)) (ground (arith, get-seed i m))

  pub any_governed :
      (r : ResourceUrl) (m : Map Text)
      → InSpace stem r
      → All IsEntry m
      → any (λ e. e.1 == r.iri) m ≡ is_some (get (acl_iri r) m)
  unfolding get
  any_governed r [] here h = refl
  any_governed r ((a, g) ∷ m) here h =
      let same = entry_iff r (a, g) here (h.0) in
      let rest = any_governed r m here (h.1) in
      ground (arith, same.0, same.1, rest, text_eq a (acl_iri r), text_eq g r.iri)
