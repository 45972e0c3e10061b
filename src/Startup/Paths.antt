-- ===== src/Startup/Paths.antt =====
-- What the class path becomes.
use xposed.Prelude.{
  ltb, if◌then◌else◌, Bytes, length, length-append, ◌+◌, ◌≡◌, Bool, true, false, ◌&&◌, none, some,
  ◌∷◌, ◌++◌, arith,
}
use xposed.Startup.Defs.{add_path_to_env, add_jar_to_classpath}

-- `addJarToClasspath` succeeds exactly if the jar can be read and the new value is shorter than 4096
-- bytes where there is an old one; then the jar comes first, before the old value. On failure
-- `CLASSPATH` stays as it is.
pub add_jar_to_classpath-value :
    (is_readable : Bool) (jar old : Bytes)
    → ((add_jar_to_classpath is_readable jar (some old)) ≡ (
        if is_readable && ltb (length jar + 1 + length old) 4096
        then (true, some (jar ++ (b':' ∷ old)))
        else (false, some old)))
      × (add_jar_to_classpath is_readable jar none
          ≡ (if is_readable then (true, some jar) else (false, none)))
unfolding add_jar_to_classpath add_path_to_env
add_jar_to_classpath-value is_readable jar old =
    (ground (arith, length-append jar (b':' ∷ old)), ground arith)
