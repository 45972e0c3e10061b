-- ===== src/Dalvik/Boxing.antt =====
-- The arguments that a hooked method is called with come out as the objects that they are.
use xposed.Prelude.{
  ◌==◌, length, get_elem?, length-append, any, ℕ, ◌+◌, ◌≡◌, refl, ◌⊎◌, inl, inr, true, some, List,
  [], ◌∷◌, ◌++◌, map, append_assoc, suc, subst, arith, Bool,
}
use xposed.Dalvik.Callback.{
  Object, reference, boxed_word, boxed_wide, word_chars, box_argument, box_arguments,
}
use xposed.Run.{returned}

-- An argument: a word of a primitive type, a wide one in two words, or an object.
pub data Value : Type 0 where
  word_value : (desc_char word : ℕ) → Value
  wide_value : (desc_char low high : ℕ) → Value
  object_value : (desc_char address : ℕ) → Value

-- The character describes the value.
unfoldable pub IsDescribed : Value → Type 0
IsDescribed (word_value c w) = any (λ d. c == d) word_chars ≡ true
IsDescribed (wide_value c lo hi) = (c ≡ b'D') ⊎ (c ≡ b'J')
IsDescribed (object_value c a) = (c ≡ b'[') ⊎ (c ≡ b'L')

unfoldable pub AllDescribed : List Value → Type 0
AllDescribed [] = Unit
AllDescribed (v ∷ vs) = IsDescribed v × AllDescribed vs

abbrev pub char_of : Value → ℕ
char_of (word_value c w) = c
char_of (wide_value c lo hi) = c
char_of (object_value c a) = c

-- The words in which a value is passed.
abbrev pub words_of : Value → List ℕ
words_of (word_value c w) = w ∷ []
words_of (wide_value c lo hi) = lo ∷ hi ∷ []
words_of (object_value c a) = a ∷ []

abbrev pub object_of : Value → Object
object_of (word_value c w) = boxed_word c w
object_of (wide_value c lo hi) = boxed_wide c lo hi
object_of (object_value c a) = reference a

abbrev pub all_words : List Value → List ℕ
all_words [] = []
all_words (v ∷ vs) = words_of v ++ all_words vs

get_elem?-append :
    (xs : List ℕ) (y : ℕ) (ys : List ℕ) → get_elem? (xs ++ (y ∷ ys)) (length xs) ≡ some y
get_elem?-append [] y ys = refl
get_elem?-append (x ∷ xs) y ys = get_elem?-append xs y ys

get_elem?-append_second :
    (xs : List ℕ) (y z : ℕ) (ys : List ℕ)
    → get_elem? (xs ++ (y ∷ z ∷ ys)) (suc (length xs)) ≡ some z
get_elem?-append_second [] y z ys = refl
get_elem?-append_second (x ∷ xs) y z ys = get_elem?-append_second xs y z ys

box_argument-object_of :
    (boxes : ℕ → Bool)
    → ((n : ℕ) → boxes n ≡ true)
    → (v : Value) (before rest : List ℕ) → IsDescribed v
    → box_argument boxes (before ++ (words_of v ++ rest)) (char_of v) (length before)
      ≡ returned (object_of v, length before + length (words_of v))
unfolding box_argument IsDescribed
box_argument-object_of boxes memory (word_value c w) before rest d =
    rw (d, memory (length before), get_elem?-append before w rest)
box_argument-object_of boxes memory (wide_value c lo hi) before rest (inl e) =
    let next : length before + 1 ≡ suc (length before) = omega arith in
    rw (
      e,
      memory (length before),
      get_elem?-append before lo (hi ∷ rest),
      next,
      get_elem?-append_second before lo hi rest,
    )
box_argument-object_of boxes memory (wide_value c lo hi) before rest (inr e) =
    let next : length before + 1 ≡ suc (length before) = omega arith in
    rw (
      e,
      memory (length before),
      get_elem?-append before lo (hi ∷ rest),
      next,
      get_elem?-append_second before lo hi rest,
    )
box_argument-object_of boxes memory (object_value c a) before rest (inl e) =
    rw (e, get_elem?-append before a rest)
box_argument-object_of boxes memory (object_value c a) before rest (inr e) =
    rw (e, get_elem?-append before a rest)

-- Where each value is one that its character describes, and there is memory for its object, the loop reads back every value that was
-- passed behind any words, in order, and takes exactly its words.
pub box_arguments-object_of :
    (boxes : ℕ → Bool)
    → ((n : ℕ) → boxes n ≡ true)
    → (vs : List Value) (before : List ℕ) → AllDescribed vs
    → box_arguments boxes (before ++ all_words vs) (map char_of vs) (length before)
      ≡ returned (map object_of vs)
unfolding box_arguments AllDescribed
box_arguments-object_of boxes memory [] before d = refl
box_arguments-object_of boxes memory (v ∷ vs) before (d, ds) =
    let after_v : length (before ++ words_of v) ≡ length before + length (words_of v) =
      length-append before (words_of v) in
    let whole : (before ++ words_of v) ++ all_words vs ≡ before ++ (words_of v ++ all_words vs) =
      append_assoc before (words_of v) (all_words vs) in
    let ih : box_arguments boxes (before ++ all_words (v ∷ vs)) (map char_of vs)
          (length before + length (words_of v))
        ≡ returned (map object_of vs) =
      subst
        (λ (ws : List ℕ).
          box_arguments boxes ws (map char_of vs) (length before + length (words_of v))
          ≡ returned (map object_of vs))
        whole
        (subst
          (λ (n : ℕ).
            box_arguments boxes ((before ++ words_of v) ++ all_words vs) (map char_of vs) n
            ≡ returned (map object_of vs))
          after_v (box_arguments-object_of boxes memory vs (before ++ words_of v) ds)) in
    rw (box_argument-object_of boxes memory v before (all_words vs) d, ih)
