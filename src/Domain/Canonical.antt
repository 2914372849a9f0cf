-- ===== src/Domain/Canonical.antt =====
-- packages/domain/src/canonical.ts and packages/evidence/src/canonical.ts: one spelling for each
-- structured value, and the identity that a report derives from it. Entries are rendered before they
-- are sorted, which changes nothing, since the order looks at keys alone. A number is an integer.
use tr4ce_app.Prelude.{Bool, true, false, String, List, [], ◌∷◌, map, if◌then◌else◌}
use tr4ce_app.Prelude.Int.{ℤ}
use tr4ce_app.Prelude.Text.{◌<>◌, join}
use tr4ce_app.Platform.{Platform}

mutual
  pub data Json : Type 0 where
    undefined null : Json
    boolean : Bool → Json
    number : ℤ → Json
    bigint : ℤ → Json
    text : String → Json
    array : Items → Json
    object : Fields → Json

  pub data Items : Type 0 where
    nil : Items
    cons : Json → Items → Items

  pub data Fields : Type 0 where
    end : Fields
    field : String → Json → Fields → Fields

abbrev pub is_undefined : Json → Bool
is_undefined undefined = true
is_undefined _ = false

module _ (p : Platform) where
  -- A stable sort by key.
  pub insert_entry : String × String → List (String × String) → List (String × String)
  insert_entry (k, v) [] = (k, v) ∷ []
  insert_entry (k, v) ((j, w) ∷ rest) =
      if p.text_lt j k then (j, w) ∷ insert_entry (k, v) rest else (k, v) ∷ (j, w) ∷ rest

  pub sort_entries : List (String × String) → List (String × String)
  unfolding insert_entry
  sort_entries [] = []
  sort_entries (e ∷ rest) = insert_entry e (sort_entries rest)

  pub render_entry : String × String → String
  render_entry (k, v) = p.quote k <> ":" <> v

  pub render_object : List (String × String) → String
  unfolding sort_entries render_entry
  render_object entries = "{" <> join "," (map render_entry (sort_entries entries)) <> "}"

  unfoldable mutual
    unfolding render_object

    pub canonical_json : Json → String
    canonical_json undefined = "null"
    canonical_json null = "null"
    canonical_json (boolean b) = if b then "true" else "false"
    canonical_json (number n) = p.show_int n
    canonical_json (bigint n) = p.quote (p.show_int n)
    canonical_json (text s) = p.quote s
    canonical_json (array items) = "[" <> join "," (canonical_items items) <> "]"
    canonical_json (object fields) = render_object (canonical_fields fields)

    pub canonical_items : Items → List String
    canonical_items nil = []
    canonical_items (cons v rest) = canonical_json v ∷ canonical_items rest

    -- The fields that are not undefined, each with its rendered value.
    pub canonical_fields : Fields → List (String × String)
    canonical_fields end = []
    canonical_fields (field k v rest) =
        let others = canonical_fields rest in
        if is_undefined v then others else (k, canonical_json v) ∷ others

  unfoldable pub canonical_digest : Json → String
  unfolding canonical_json canonical_items canonical_fields
  canonical_digest value = p.sha256 (canonical_json value)

  -- `canonicalInputHash` of packages/evidence
  unfoldable pub canonical_input_hash : Json → String
  unfolding canonical_digest
  canonical_input_hash input = canonical_digest input

  unfoldable pub report_id_for : String → String
  report_id_for hash = "trc_" <> p.slice_from_start 32 hash

pub record ReportIdentity : Type 0 where
  pub canonical_input_hash : String
  pub report_id : String

unfoldable pub derive_report_identity : Platform → Json → ReportIdentity
derive_report_identity p input =
    let hash = canonical_input_hash p input in
    record { canonical_input_hash = hash; report_id = report_id_for p hash }
