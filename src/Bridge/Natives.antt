-- ===== src/Bridge/Natives.antt =====
-- The native methods that are registered: lines 154-164 and 337-377 of libxposed_common.cpp.
use xposed.Prelude.{
  leb, if◌then◌else◌, Bool-cases, bytes_of, eqb_text, Bytes, any, ℕ, ◌≡◌, inl, inr, Bool, true, not,
  ◌&&◌, List, [], ◌∷◌, ◌++◌,
}

-- What the executable tells the library: `XposedShared`.
pub record XposedShared : Type 0 where
  pub start_class_name : Bytes
  pub start_system_server : Bool
  pub xposed_version_int : ℕ

abbrev pub get_start_class_name : XposedShared → Bytes
get_start_class_name x = x.start_class_name

abbrev pub starts_system_server : XposedShared → Bool
starts_system_server x = x.start_system_server

abbrev pub get_xposed_version : XposedShared → ℕ
get_xposed_version x = x.xposed_version_int

-- A name and a signature.
abbrev pub NativeMethod : Type 0
NativeMethod = Bytes × Bytes

abbrev from_21 : List NativeMethod
from_21 =
    (
      bytes_of "invokeOriginalMethodNative",
      bytes_of
          "!(Ljava/lang/reflect/Member;I[Ljava/lang/Class;Ljava/lang/Class;Ljava/lang/Object;[Ljava/lang/Object;)Ljava/lang/Object;",
    )
    ∷ (bytes_of "closeFilesBeforeForkNative", bytes_of "()V")
    ∷ (bytes_of "reopenFilesAfterForkNative", bytes_of "()V")
    ∷ []

abbrev from_24 : List NativeMethod
from_24 = (bytes_of "invalidateCallersNative", bytes_of "([Ljava/lang/reflect/Member;)V") ∷ []

-- `register_natives_XposedBridge`.
unfoldable pub natives_xposed_bridge : (platform_sdk_version : ℕ) → List NativeMethod
natives_xposed_bridge platform_sdk_version =
    ((bytes_of "hadInitErrors", bytes_of "()Z")
      ∷ (bytes_of "getStartClassName", bytes_of "()Ljava/lang/String;")
      ∷ (bytes_of "getRuntime", bytes_of "()I")
      ∷ (bytes_of "startsSystemServer", bytes_of "()Z")
      ∷ (bytes_of "getXposedVersion", bytes_of "()I")
      ∷ (bytes_of "initXResourcesNative", bytes_of "()Z")
      ∷ (
        bytes_of "hookMethodNative",
        bytes_of "(Ljava/lang/reflect/Member;Ljava/lang/Class;ILjava/lang/Object;)V",
      )
      ∷ (bytes_of "setObjectClassNative", bytes_of "(Ljava/lang/Object;Ljava/lang/Class;)V")
      ∷ (bytes_of "dumpObjectNative", bytes_of "(Ljava/lang/Object;)V")
      ∷ (
        bytes_of "cloneToSubclassNative",
        bytes_of "(Ljava/lang/Object;Ljava/lang/Class;)Ljava/lang/Object;",
      )
      ∷ (bytes_of "removeFinalFlagNative", bytes_of "(Ljava/lang/Class;)V")
      ∷ [])
    ++ ((if leb 21 platform_sdk_version then from_21 else [])
        ++ (if leb 24 platform_sdk_version then from_24 else []))

-- `register_natives_XResources`.
abbrev pub natives_xresources : List NativeMethod
natives_xresources =
    (
      bytes_of "rewriteXmlReferencesNative",
      bytes_of "(JLandroid/content/res/XResources;Landroid/content/res/Resources;)V",
    )
    ∷ []

-- `register_natives_ZygoteService`; the class is `CLASS_FILE_RESULT`.
unfoldable pub natives_zygote_service : (class_file_result : Bytes) → List NativeMethod
natives_zygote_service class_file_result =
    (bytes_of "checkFileAccess", bytes_of "(Ljava/lang/String;I)Z")
    ∷ (bytes_of "statFile", bytes_of "(Ljava/lang/String;)L" ++ (class_file_result ++ bytes_of ";"))
    ∷ (bytes_of "readFile", bytes_of "(Ljava/lang/String;)[B")
    ∷ []

-- No name is registered twice.
unfoldable pub has_no_twice : List NativeMethod → Bool
has_no_twice [] = true
has_no_twice (m ∷ ms) = not (any (λ n. eqb_text m.0 n.0) ms) && has_no_twice ms

-- No name of the class is registered twice, in whatever version.
natives_xposed_bridge-has_no_twice :
    (platform_sdk_version : ℕ) → has_no_twice (natives_xposed_bridge platform_sdk_version) ≡ true
unfolding natives_xposed_bridge has_no_twice
natives_xposed_bridge-has_no_twice v = elim (Bool-cases (leb 21 v)) [
  | inl l ↦ elim (Bool-cases (leb 24 v)) [ inl n ↦ rw (l, n) | inr o ↦ rw (l, o) ]
  | inr o ↦ elim (Bool-cases (leb 24 v)) [ inl n ↦ rw (o, n) | inr p ↦ rw (o, p) ]
]
