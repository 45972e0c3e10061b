-- ===== src/Dalvik/Callback.antt =====
-- `hookedMethodCallback`, lines 145-235.
use xposed.Prelude.{
  ◌==◌, if◌then◌else◌, bytes_of, Bytes, get_elem?, drop, any, ℕ, ◌+◌, Bool, not, ◌||◌, Option, none,
  some, List, [], ◌∷◌,
}
use xposed.Dalvik.Defs.{Insns, code_at, hook_info, Method, XposedHookInfo, Heap, is_method_hooked}
use xposed.Run.{◌>>=◌, Run, fault, returned, non_null}

-- What the callback puts into the array of arguments.
pub data Object : Type 0 where
  null_object : Object
  reference : ℕ → Object
  boxed_word : ℕ → ℕ → Object
  boxed_wide : ℕ → ℕ → ℕ → Object

abbrev pub word_chars : Bytes
word_chars = bytes_of "ZCFBSI"

-- A read of `args[index]`.
abbrev pub arg_at : List ℕ → ℕ → Run ℕ
arg_at args index = non_null (get_elem? args index)

-- What `dvmBoxPrimitive` returns: null if there is no memory. The code goes on with the null, which
-- `dvmReleaseTrackedAlloc` is taken to accept.
abbrev pub boxed_or_null : (has_memory : Bool) → Object → Object
boxed_or_null has_memory o = if has_memory then o else null_object

-- Lines 175-205: the object for one character of the description, and the index behind it. `boxes` says
-- for each index whether there is memory for an object of the argument.
unfoldable pub box_argument : (boxes : ℕ → Bool) → List ℕ → ℕ → ℕ → Run (Object × ℕ)
box_argument boxes args desc_char src_index =
    if any (λ c. desc_char == c) word_chars
    then (do
      v ← arg_at args src_index
      returned (boxed_or_null (boxes src_index) (boxed_word desc_char v), src_index + 1))
    else if (desc_char == b'D') || (desc_char == b'J')
    then (do
      lo ← arg_at args src_index
      hi ← arg_at args (src_index + 1)
      returned (boxed_or_null (boxes src_index) (boxed_wide desc_char lo hi), src_index + 2))
    else if (desc_char == b'[') || (desc_char == b'L')
    then (do v ← arg_at args src_index; returned (reference v, src_index + 1))
    else returned (null_object, src_index + 1)

-- Lines 174-207: the loop over the description.
unfoldable pub box_arguments : (boxes : ℕ → Bool) → List ℕ → Bytes → ℕ → Run (List Object)
box_arguments boxes args [] src_index = returned []
box_arguments boxes args (c ∷ desc) src_index = do
  (o, next) ← box_argument boxes args c src_index
  os ← box_arguments boxes args desc next
  returned (o ∷ os)

-- The call of the Java handler.
pub record HandlerCall : Type 0 where
  pub reflected : ℕ
  pub original : ℕ
  pub additional : ℕ
  pub this_object : Option ℕ
  pub arguments : List Object

-- What the virtual machine answers: whether the array and the
-- objects of arguments could be allocated, what the handler returns (an
-- exception or an object, which may be null), and the return type.
pub record Machine : Type 0 where
  pub allocates : Bool
  pub boxes : ℕ → Bool
  pub handler : HandlerCall → Option (Option ℕ)
  pub returns_void : Bool
  pub returns_primitive : Bool
  pub unboxes : ℕ → Bool

-- How the callback ends.
pub data Ending : Type 0 where
  no_original : Ending
  no_memory : Ending
  thrown : HandlerCall → Ending
  result_ignored : HandlerCall → Ending
  null_result : HandlerCall → (throws : Bool) → Ending
  unboxed : HandlerCall → ℕ → Ending
  class_cast : HandlerCall → ℕ → Ending

-- Lines 216-234.
unfoldable pub finish_call : Machine → HandlerCall → Option (Option ℕ) → Ending
finish_call v c none = thrown c
finish_call v c (some r) = if v.returns_void then result_ignored c else elim r [
  | none ↦ null_result c v.returns_primitive
  | some o ↦ if v.unboxes o then unboxed c o else class_cast c o
]

-- Lines 159-167: `this`, and the index behind it.
unfoldable pub this_argument : Method → List ℕ → Run (Option ℕ × ℕ)
this_argument m args =
    if m.is_static then returned (none, 0) else (do v ← arg_at args 0; returned (some v, 1))

-- Lines 152-235, for a hooked method with this hook record.
unfoldable pub call_handler : Machine → List ℕ → Method → ℕ → XposedHookInfo → Run Ending
call_handler v args m info i = do
  (this_object, first_index) ← this_argument i.original_method args
  if not v.allocates then returned no_memory else (do
    os ← box_arguments v.boxes args (drop 1 m.shorty) first_index
    let c : HandlerCall = record {
      reflected = i.reflected_method;
      original = info;
      additional = i.additional_info;
      this_object = this_object;
      arguments = os;
    }
    returned (finish_call v c (v.handler c)))

-- `(XposedHookInfo*) method->insns`, where it points to a hook record.
unfoldable pub info_of : Heap → Insns → Run (ℕ × XposedHookInfo)
info_of h (hook_info info) = do i ← non_null (h.infos info); returned (info, i)
info_of h (code_at c) = fault

unfoldable pub hooked_method_callback_call : Machine → List ℕ → ℕ → Heap → Run Ending
hooked_method_callback_call v args a h =
    if not (is_method_hooked (h.methods a))
    then returned no_original
    else (do (info, i) ← info_of h (h.methods a).insns; call_handler v args (h.methods a) info i)
