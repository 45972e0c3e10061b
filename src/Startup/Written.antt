-- ===== src/Startup/Written.antt =====
-- A line of the version file that is written out is read back.
use xposed.Prelude.{
  ◌==◌, Bytes, get_or, any, ℕ, ◌≡◌, refl, Bool, true, false, ◌||◌, some, [], ◌∷◌, ◌++◌, arith,
  length, ap, ◌∙◌, append_assoc,
}
use xposed.Run.{returned}
use xposed.Startup.Properties.{is_space, split_at, skip_spaces, trim_end, until_newline, parse_line}

-- Bytes that are all spaces.
unfoldable pub AllSpaces : Bytes → Type 0
AllSpaces [] = Unit
AllSpaces (x ∷ s) = (is_space x ≡ true) × AllSpaces s

abbrev pub ends_in_space : Bytes → Bool
ends_in_space [] = false
ends_in_space (x ∷ []) = is_space x
ends_in_space (x ∷ y ∷ s) = ends_in_space (y ∷ s)

abbrev pub is_newline : ℕ → Bool
is_newline c = (c == b'\n') || (c == b'\r')

-- A key: neither empty nor a comment, without a sign of equality, and with no space around it.
pub record IsKey (first : ℕ) (key : Bytes) : Type 0 where
  pub no_space : is_space first ≡ false
  pub no_comment : (first == b'#') ≡ false
  pub no_sign : any (λ c. c == b'=') (first ∷ key) ≡ false
  pub no_space_behind : ends_in_space (first ∷ key) ≡ false

-- A value: no space before it, and one line only.
pub record IsValue (value : Bytes) : Type 0 where
  pub no_space : is_space (get_or value 0 0) ≡ false
  pub one_line : any is_newline value ≡ false

skip_spaces-append : (s t : Bytes) → AllSpaces s → skip_spaces (s ++ t) ≡ skip_spaces t
unfolding skip_spaces AllSpaces
skip_spaces-append [] t h = refl
skip_spaces-append (x ∷ s) t (h, hs) = rw h (skip_spaces-append s t hs)

trim_end-spaces : (s : Bytes) → AllSpaces s → trim_end s ≡ []
unfolding trim_end AllSpaces
trim_end-spaces [] h = refl
trim_end-spaces (x ∷ s) (h, hs) = rw (trim_end-spaces s hs, h)

trim_end-append :
    (x : ℕ) (s t : Bytes)
    → ends_in_space (x ∷ s) ≡ false
    → AllSpaces t
    → trim_end (x ∷ (s ++ t)) ≡ x ∷ s
unfolding trim_end
trim_end-append x [] t h k = rw (trim_end, trim_end-spaces t k, h)
trim_end-append x (y ∷ s) t h k = rw (trim_end, trim_end-append y s t h k)

split_at-append :
    (c : ℕ) (s t : Bytes)
    → any (λ x. x == c) s ≡ false
    → split_at c (s ++ (c ∷ t)) ≡ some (s, c ∷ t)
unfolding split_at
split_at-append c [] t h = ground arith
split_at-append c (x ∷ s) t h =
    let other : (x == c) ≡ false = ground arith in
    let rest : any (λ x. x == c) s ≡ false = ground arith in
    rw (split_at, other, split_at-append c s t rest)

until_newline-append :
    (s : Bytes) → any is_newline s ≡ false → until_newline (s ++ (b'\n' ∷ [])) ≡ s
unfolding until_newline
until_newline-append [] h = refl
until_newline-append (x ∷ s) h =
    let other : is_newline x ≡ false = ground arith in
    let rest : any is_newline s ≡ false = ground arith in rw (other, until_newline-append s rest)

any-append :
    (p : ℕ → Bool) (s t : Bytes) → any p s ≡ false → any p t ≡ false → any p (s ++ t) ≡ false
any-append p [] t h k = k
any-append p (x ∷ s) t h k =
    let rest : any p s ≡ false = ground arith in let ih = any-append p s t rest k in ground arith

no_sign-spaces : (s : Bytes) → AllSpaces s → any (λ c. c == b'=') s ≡ false
unfolding AllSpaces is_space
no_sign-spaces [] h = refl
no_sign-spaces (x ∷ s) (h, hs) = let ih = no_sign-spaces s hs in ground arith

ends_in_space-append :
    (s : Bytes) (x : ℕ) (t : Bytes) → ends_in_space (s ++ (x ∷ t)) ≡ ends_in_space (x ∷ t)
ends_in_space-append [] x t = refl
ends_in_space-append (y ∷ []) x t = refl
ends_in_space-append (y ∷ z ∷ s) x t = ends_in_space-append (z ∷ s) x t

length-trim_end :
    (first : ℕ) (key before behind : Bytes)
    → ends_in_space (first ∷ key) ≡ false
    → AllSpaces behind
    → (length (trim_end (before ++ (first ∷ (key ++ behind)))) == 0) ≡ false
length-trim_end first key [] behind h k = rw (trim_end-append first key behind h k) (ground arith)
length-trim_end first key (b ∷ bs) behind h k =
    rw
      (
        ← append_assoc bs (first ∷ key) behind,
        trim_end-append b (bs ++ (first ∷ key)) behind (ends_in_space-append (b ∷ bs) first key ∙ h)
            k,
      )
      (ground arith)

-- The value behind its spaces.
skip_spaces-value :
    (value : Bytes) → IsValue value → until_newline (skip_spaces (value ++ (b'\n' ∷ []))) ≡ value
unfolding skip_spaces is_space until_newline
skip_spaces-value [] h = refl
skip_spaces-value (x ∷ s) h = rw (skip_spaces, h.no_space) (until_newline-append (x ∷ s) h.one_line)

module _ (first : ℕ) (key value before behind between : Bytes) (is_key : IsKey first key)
    (is_value : IsValue value) (before_spaces : AllSpaces before) (behind_spaces : AllSpaces behind)
    (between_spaces : AllSpaces between) where
  -- The text up to the sign of equality.
  abbrev left : Bytes
  left = before ++ (first ∷ (key ++ behind))

  no_sign-left : any (λ c. c == b'=') left ≡ false
  no_sign-left =
      any-append (λ c. c == b'=') before (first ∷ (key ++ behind))
        (no_sign-spaces before before_spaces)
        (any-append (λ c. c == b'=') (first ∷ key) behind is_key.no_sign
          (no_sign-spaces behind behind_spaces))

  skip_spaces-left : (t : Bytes) → skip_spaces (left ++ t) ≡ first ∷ ((key ++ behind) ++ t)
  unfolding skip_spaces
  skip_spaces-left t =
      ap skip_spaces (append_assoc before (first ∷ (key ++ behind)) t)
      ∙ skip_spaces-append before (first ∷ ((key ++ behind) ++ t)) before_spaces
      ∙ rw (skip_spaces, is_key.no_space)

  skip_spaces-key : skip_spaces left ≡ first ∷ (key ++ behind)
  unfolding skip_spaces
  skip_spaces-key =
      skip_spaces-append before (first ∷ (key ++ behind)) before_spaces
      ∙ rw (skip_spaces, is_key.no_space)

  -- A key that is not empty, begins no comment and has neither spaces around it nor a sign of equality,
  -- and a value of one line without a space before it, written on a line with any spaces before and
  -- behind the key and before the value, are read back as they are.
  pub parse_line-written :
      parse_line (left ++ (b'=' ∷ (between ++ (value ++ (b'\n' ∷ [])))))
      ≡ returned (some (first ∷ key, value))
  unfolding parse_line
  parse_line-written =
      let rest = between ++ (value ++ (b'\n' ∷ [])) in
      rw (
        parse_line,
        split_at-append b'=' left rest no_sign-left,
        skip_spaces-left (b'=' ∷ rest),
        is_key.no_comment,
        length-trim_end first key before behind is_key.no_space_behind behind_spaces,
        skip_spaces-key,
        trim_end-append first key behind is_key.no_space_behind behind_spaces,
        skip_spaces-append between (value ++ (b'\n' ∷ [])) between_spaces,
        skip_spaces-value value is_value,
      )
