-- ===== src/Startup/Commands.antt =====
-- Which commands are ignored.
use xposed.Prelude.{
  leb, bytes_of, eqb_text, Bytes, length, get_or, drop, any, ◌≡◌, Bool, false, ◌&&◌, ◌||◌, List, [],
  ◌∷◌, arith,
}
use xposed.Startup.Defs.{
  is_result_of_su, is_superuser_component, scan_arguments, should_ignore_command,
}

abbrev pub is_user_option : Bytes → Bool
is_user_option arg = eqb_text arg (bytes_of "--user")

-- Whether an argument that names a component of a superuser application has `--user` behind it.
pub has_user_after_component : List Bytes → Bool
has_user_after_component [] = false
has_user_after_component (arg ∷ args) =
    (is_superuser_component arg && any is_user_option args) || has_user_after_component args

scan_arguments-any :
    (b : Bool) (args : List Bytes)
    → scan_arguments b args ≡ (
        any is_result_of_su args || (b && any is_user_option args) || has_user_after_component args)
unfolding scan_arguments has_user_after_component
scan_arguments-any b [] = ground arith
scan_arguments-any b (arg ∷ args) =
    ground (arith, scan_arguments-any (b || is_superuser_component arg) args)

-- A command is ignored exactly if it is the activity manager's `broadcast` or `start` with at least
-- four arguments, and from the fourth on either an argument is the name of a superuser
-- application's result, or `--user` follows a component of one.
pub should_ignore_command-any :
    (start_class_name : Bytes) (argv : List Bytes)
    → should_ignore_command start_class_name argv ≡ (
        leb 4 (length argv)
        && eqb_text start_class_name (bytes_of "com.android.commands.am.Am")
        && (eqb_text (get_or argv 2 []) (bytes_of "broadcast")
            || eqb_text (get_or argv 2 []) (bytes_of "start"))
        && (any is_result_of_su (drop 3 argv) || has_user_after_component (drop 3 argv)))
unfolding should_ignore_command
should_ignore_command-any start_class_name argv =
    ground (arith, scan_arguments-any false (drop 3 argv))
