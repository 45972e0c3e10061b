-- ===== src/Resources/Translated.antt =====
-- What the rewriting does when no translation throws.
use xposed.Prelude.{
  ◌==◌, leb, if◌then◌else◌, Bytes, get_elem?, ℤ, pos, negsuc, signed32, ltb_ℤ, eqb_ℤ, ℕ, zero, suc,
  ◌≡◌, refl, sym, ap, ◌∙◌, Bool, false, not, ◌&&◌, ◌||◌, Option, none, some, List, [], ◌∷◌, map,
  arith, Bool-cases, Option-cases, subst, inl, inr, true,
}
use xposed.Resources.Rewrite.{
  Attribute, XmlEvent, start_tag, other_event, Translator, app_ids, to_uint32, set_elem,
  rewrite_name, rewrite_value, rewrite_attributes, rewrite_events, XmlTree, rewrite_xml_references,
}
use xposed.Run.{returned}

set_elem-get_elem? :
    (xs : List ℕ) (n v x i : ℕ)
    → get_elem? xs n ≡ some x
    → get_elem? (set_elem xs n v) i ≡ (if n == i then some v else get_elem? xs i)
unfolding set_elem
set_elem-get_elem? [] n v x i h = cc h
set_elem-get_elem? (y ∷ xs) zero v x zero h = refl
set_elem-get_elem? (y ∷ xs) zero v x (suc i) h = ground arith
set_elem-get_elem? (y ∷ xs) (suc n) v x zero h = ground arith
set_elem-get_elem? (y ∷ xs) (suc n) v x (suc i) h =
    let rest = set_elem-get_elem? xs n v x i h in ground arith

-- Is this entry of the table the name of the attribute?
abbrev pub is_name : ℕ → ℤ → Bool
is_name i (pos n) = n == i
is_name i (negsuc n) = false

unfoldable pub is_name_in : ℕ → List Attribute → Bool
is_name_in i [] = false
is_name_in i (a ∷ attrs) = is_name i a.name_id || is_name_in i attrs

unfoldable pub occurs : ℕ → List XmlEvent → Bool
occurs i [] = false
occurs i (other_event ∷ es) = occurs i es
occurs i (start_tag attrs ∷ es) = is_name_in i attrs || occurs i es

-- The translation of an application's id.
unfoldable pub translated_id : (string_at : ℕ → Bytes) (attr_id : Bytes → ℤ) → ℕ → ℕ → ℕ
translated_id string_at attr_id i id =
    if leb app_ids id then to_uint32 (attr_id (string_at i)) else id

unfoldable pub translated_attribute : (res_id : ℤ → ℤ) → Attribute → Attribute
translated_attribute res_id a =
    let old = signed32 a.value in
    if a.is_reference && not (ltb_ℤ old (pos app_ids)) && not (eqb_ℤ (res_id old) old)
    then record a { value = to_uint32 (res_id old) }
    else a

unfoldable pub translated_event : (res_id : ℤ → ℤ) → XmlEvent → XmlEvent
translated_event res_id other_event = other_event
translated_event res_id (start_tag attrs) = start_tag (map (translated_attribute res_id) attrs)

module _ (string_at : ℕ → Bytes) (attr_id : Bytes → ℤ) (res_id : ℤ → ℤ) where
  -- The two methods never throw.
  abbrev pub translator : Translator
  translator = record {
    string_at = string_at;
    translate_attr_id = λ s. some (attr_id s);
    translate_res_id = λ v. some (res_id v);
  }

  -- An entry of the table, translated where it is used as a name.
  abbrev pub entry : Bool → ℕ → Option ℕ → Option ℕ
  entry used i none = none
  entry used i (some id) = some (if used then translated_id string_at attr_id i id else id)

  entry-false : (i : ℕ) (o : Option ℕ) → entry false i o ≡ o
  entry-false i none = refl
  entry-false i (some id) = refl

  -- Translating twice is translating once.
  entry-entry : (b c : Bool) (i : ℕ) (o : Option ℕ) → entry c i (entry b i o) ≡ entry (b || c) i o
  unfolding translated_id
  entry-entry b c i none = refl
  entry-entry b c i (some id) = ground arith

  -- The table behind the rewriting of some names.
  abbrev pub IsTranslated : (ℕ → Bool) → List ℕ → List ℕ → Type 0
  IsTranslated used ids ids' = (i : ℕ) → get_elem? ids' i ≡ entry (used i) i (get_elem? ids i)

  -- Entry `n` of the table is the only one that may change.
  entry-pos :
      (n i : ℕ) (ids : List ℕ) (o changed : Option ℕ)
      → get_elem? ids n ≡ o
      → changed ≡ entry true n o
      → (if n == i then changed else get_elem? ids i) ≡ entry (n == i) i (get_elem? ids i)
  entry-pos n i ids o changed h k = elim (Bool-cases (n == i)) [
    | inr other ↦ rw other (sym (entry-false i _))
    | inl same ↦
        let e : n ≡ i = ground arith in
        let here : get_elem? ids i ≡ o = subst (λ (j : ℕ). get_elem? ids j ≡ o) e h in
        rw (same, here, k) (ap (λ (j : ℕ). entry true j o) e)
  ]

  kept-pos :
      (n i : ℕ) (ids : List ℕ)
      → get_elem? ids i ≡ (if n == i then get_elem? ids n else get_elem? ids i)
  kept-pos n i ids = elim (Bool-cases (n == i)) [
    | inr other ↦ rw other
    | inl same ↦ let e : i ≡ n = ground arith in rw same (ap (λ (j : ℕ). get_elem? ids j) e)
  ]

  rewrite_name-IsTranslated :
      (name : ℤ) (ids : List ℕ)
      → (ids' : List ℕ) × (rewrite_name translator name ids ≡ some ids')
        × IsTranslated (λ i. is_name i name) ids ids'
  unfolding rewrite_name translated_id
  rewrite_name-IsTranslated (negsuc n) ids = (ids, refl, λ i. sym (entry-false i _))
  rewrite_name-IsTranslated (pos n) ids = elim (Option-cases (get_elem? ids n)) [
    | inl missing ↦ (
      ids,
      rw (rewrite_name, missing),
      λ i. kept-pos n i ids ∙ entry-pos n i ids none (get_elem? ids n) missing missing,
    )
    | inr (id, there) ↦ elim (Bool-cases (leb app_ids id)) [
      | inr small ↦ (
        ids,
        rw (rewrite_name, there, small),
        λ i.
            kept-pos n i ids
            ∙ entry-pos n i ids (some id) (get_elem? ids n) there
                (there ∙ rw (translated_id, small)),
      )
      | inl app ↦
          let v = to_uint32 (attr_id (string_at n)) in
          (
            set_elem ids n v,
            rw (rewrite_name, there, app),
            λ i.
                set_elem-get_elem? ids n v id i there
                ∙ entry-pos n i ids (some id) (some v) there (rw (translated_id, app)),
          )
    ]
  ]

  rewrite_value-translated_attribute :
      (a : Attribute) → rewrite_value translator a ≡ some (translated_attribute res_id a)
  unfolding rewrite_value translated_attribute
  rewrite_value-translated_attribute a = ground arith

  rewrite_attributes-IsTranslated :
      (attrs : List Attribute) (ids : List ℕ)
      → (ids' : List ℕ) × (rewrite_attributes translator attrs ids
          ≡ (map (translated_attribute res_id) attrs, ids', false))
        × IsTranslated (λ i. is_name_in i attrs) ids ids'
  unfolding rewrite_attributes is_name_in
  rewrite_attributes-IsTranslated [] ids = (ids, refl, λ i. sym (entry-false i _))
  rewrite_attributes-IsTranslated (a ∷ attrs) ids =
      let (ids₁, first, there) = rewrite_name-IsTranslated a.name_id ids in
      let (ids₂, rest, behind) = rewrite_attributes-IsTranslated attrs ids₁ in
      (
        ids₂,
        rw (rewrite_attributes, first, rewrite_value-translated_attribute a, rest),
        λ i. behind i ∙ ap (entry (is_name_in i attrs) i) (there i) ∙ entry-entry _ _ i _,
      )

  pub rewrite_events-IsTranslated :
      (es : List XmlEvent) (ids : List ℕ)
      → (ids' : List ℕ) × (rewrite_events translator es ids
          ≡ (map (translated_event res_id) es, ids', false))
        × IsTranslated (λ i. occurs i es) ids ids'
  unfolding rewrite_events occurs translated_event
  rewrite_events-IsTranslated [] ids = (ids, refl, λ i. sym (entry-false i _))
  rewrite_events-IsTranslated (other_event ∷ es) ids =
      let (ids', rest, behind) = rewrite_events-IsTranslated es ids in (ids', rw rest, behind)
  rewrite_events-IsTranslated (start_tag attrs ∷ es) ids =
      let (ids₁, first, there) = rewrite_attributes-IsTranslated attrs ids in
      let (ids₂, rest, behind) = rewrite_events-IsTranslated es ids₁ in
      (
        ids₂,
        rw (first, rest),
        λ i. behind i ∙ ap (entry (occurs i es) i) (there i) ∙ entry-entry _ _ i _,
      )

  -- If the two Java methods never throw, each reference to an id of an application (as a signed number)
  -- is replaced by its translation, each entry of the table of ids that names an attribute somewhere
  -- and is an application's (as an unsigned number) by the translation of its name, and all else
  -- stays; that an entry may be met several times makes no difference.
  pub rewrite_xml_references-IsTranslated :
      (tree : XmlTree)
      → (ids' : List ℕ) × (rewrite_xml_references translator (some tree)
          ≡ returned
              (record { events = map (translated_event res_id) tree.events; res_ids = ids' }))
        × IsTranslated (λ i. occurs i tree.events) tree.res_ids ids'
  unfolding rewrite_xml_references
  rewrite_xml_references-IsTranslated tree =
      let (ids', rewritten, behind) = rewrite_events-IsTranslated tree.events tree.res_ids in
      (ids', rw rewritten, behind)
