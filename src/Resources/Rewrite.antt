-- ===== src/Resources/Rewrite.antt =====
-- `XResources_rewriteXmlReferencesNative`, lines 203-269 of libxposed_common.cpp. The parser of
-- Android is not in this repository: an XML document is what `next` delivers before the end.
use xposed.Prelude.{
  leb, if◌then◌else◌, Bytes, get_elem?, ℤ, pos, negsuc, signed32, ltb_ℤ, eqb_ℤ, ℕ, zero, suc, ◌-◌,
  ◌%◌, ◌^◌, Bool, true, false, not, ◌||◌, Option, none, some, List, [], ◌∷◌,
}
use xposed.Run.{Run, fault, returned}

-- An attribute: what `getAttributeNameID` says, whether the value is a reference, and the value.
pub record Attribute : Type 0 where
  pub name_id : ℤ
  pub is_reference : Bool
  pub value : ℕ

pub data XmlEvent : Type 0 where
  start_tag : List Attribute → XmlEvent
  other_event : XmlEvent

-- The strings of the document, and the two Java methods, which give a number or throw.
pub record Translator : Type 0 where
  pub string_at : ℕ → Bytes
  pub translate_attr_id : Bytes → Option ℤ
  pub translate_res_id : ℤ → Option ℤ

-- The ids of application packages begin here.
abbrev pub app_ids : ℕ
app_ids = 2130706432

-- A `jint` in a field of 32 bits.
unfoldable pub to_uint32 : ℤ → ℕ
to_uint32 (pos n) = n % 2 ^ 32
to_uint32 (negsuc n) = 2 ^ 32 - 1 - n % 2 ^ 32

unfoldable pub set_elem : List ℕ → ℕ → ℕ → List ℕ
set_elem [] i v = []
set_elem (x ∷ xs) zero v = v ∷ xs
set_elem (x ∷ xs) (suc i) v = x ∷ set_elem xs i v

-- Lines 229-240: the ids of the attribute names behind one attribute, unless the translation throws.
unfoldable pub rewrite_name : Translator → ℤ → (res_ids : List ℕ) → Option (List ℕ)
rewrite_name t (negsuc n) res_ids = some res_ids
rewrite_name t (pos n) res_ids = elim (get_elem? res_ids n) [
  | none ↦ some res_ids
  | some id ↦
      if leb app_ids id
      then elim (t.translate_attr_id (t.string_at n)) [
        | none ↦ none
        | some v ↦ some (set_elem res_ids n (to_uint32 v))
      ]
      else some res_ids
]

-- Lines 242-256.
unfoldable pub rewrite_value : Translator → Attribute → Option Attribute
rewrite_value t a =
    let old_value = signed32 a.value in
    if not a.is_reference || ltb_ℤ old_value (pos app_ids)
    then some a
    else elim (t.translate_res_id old_value) [
      | none ↦ none
      | some new_value ↦
          if eqb_ℤ new_value old_value
          then some a
          else some (record a { value = to_uint32 new_value })
    ]

-- Lines 222-257: the attributes of a tag, the ids, and whether an exception ends it all.
unfoldable pub rewrite_attributes :
    Translator → List Attribute → List ℕ → List Attribute × List ℕ × Bool
rewrite_attributes t [] ids = ([], ids, false)
rewrite_attributes t (a ∷ attrs) ids = elim (rewrite_name t a.name_id ids) [
  | none ↦ (a ∷ attrs, ids, true)
  | some ids' ↦ elim (rewrite_value t a) [
    | none ↦ (a ∷ attrs, ids', true)
    | some a' ↦
        let (attrs', ids'', throws) = rewrite_attributes t attrs ids' in
        (a' ∷ attrs', ids'', throws)
  ]
]

-- Lines 217-265.
unfoldable pub rewrite_events : Translator → List XmlEvent → List ℕ → List XmlEvent × List ℕ × Bool
rewrite_events t [] ids = ([], ids, false)
rewrite_events t (other_event ∷ es) ids =
    let (es', ids', throws) = rewrite_events t es ids in (other_event ∷ es', ids', throws)
rewrite_events t (start_tag attrs ∷ es) ids =
    let (attrs', ids', throws) = rewrite_attributes t attrs ids in
    let (es', ids'', throws') = rewrite_events t es ids' in
    if throws then (start_tag attrs' ∷ es, ids', true) else (start_tag attrs' ∷ es', ids'', throws')

-- The document behind the parser's address, and its table of ids.
pub record XmlTree : Type 0 where
  pub events : List XmlEvent
  pub res_ids : List ℕ

-- The fields of the parser are read before it is compared with null.
unfoldable pub rewrite_xml_references : Translator → (parser : Option XmlTree) → Run XmlTree
rewrite_xml_references t none = fault
rewrite_xml_references t (some tree) =
    let (events, res_ids, throws) = rewrite_events t tree.events tree.res_ids in
    returned (record { events = events; res_ids = res_ids })
