-- ===== src/AppProcess/Printed.antt =====
-- A command line that is written out is understood.
use xposed.Prelude.{
  ◌==◌, if◌then◌else◌, bytes_of, starts_with, Bytes, get_or, ◌≡◌, refl, Bool, false, ◌&&◌, Option,
  none, some, List, [], ◌∷◌, ◌++◌, arith, ◌∙◌, true, ◌||◌,
}
use xposed.AppProcess.Args.{vm_options, Flags, parse_flags, no_flags, parse_command_line}

-- Options for the virtual machine: each begins with a dash, and is not the one that ends them.
unfoldable pub IsOptions : List Bytes → Type 0
IsOptions [] = Unit
IsOptions (o ∷ os) =
    (get_or o 0 0 ≡ b'-') × ((get_or o 1 0 == b'-') && (get_or o 2 0 == 0) ≡ false) × IsOptions os

vm_options-append :
    (os rest : List Bytes) → IsOptions os → vm_options (os ++ (bytes_of "--" ∷ rest)) ≡ (os, rest)
unfolding vm_options IsOptions
vm_options-append [] rest h = refl
vm_options-append (o ∷ os) rest (dash, not_end, h) = rw (dash, not_end, vm_options-append os rest h)

abbrev pub flag : Bool → Bytes → List Bytes → List Bytes
flag on name args = if on then name ∷ args else args

abbrev pub nice_args : Option Bytes → List Bytes → List Bytes
nice_args none args = args
nice_args (some n) args = (bytes_of "--nice-name=" ++ n) ∷ args

-- The arguments that set these flags, in the order in which a zygote's are given.
unfoldable pub flag_args : Flags → (nice_name : Option Bytes) → List Bytes → List Bytes
flag_args f nice_name args = flag f.zygote (bytes_of "--zygote") (
    flag f.start_system_server (bytes_of "--start-system-server")
      (flag f.application (bytes_of "--application") (nice_args nice_name args)))

-- Not an option.
unfoldable pub IsClassName : Bytes → Type 0
IsClassName c = starts_with (bytes_of "--") c ≡ false

class_name-parse_flags :
    (z c : Bytes) (args : List Bytes) (f : Flags)
    → IsClassName c
    → parse_flags z (c ∷ args) f ≡ record f { class_name = c; rest = args }
unfolding parse_flags IsClassName
class_name-parse_flags z [] args f h = refl
class_name-parse_flags z (x ∷ []) args f h = ground arith
class_name-parse_flags z (x ∷ y ∷ c) args f h = ground arith

-- The flags that the arguments say.
abbrev pub flagged : (zygote_nice_name : Bytes) → Flags → Option Bytes → Flags
flagged z f nice_name = record f {
  nice_name = elim nice_name [ some n ↦ n | none ↦ if f.zygote then z else [] ];
}

zygote-parse_flags :
    (z : Bytes) (on : Bool) (args : List Bytes) (f : Flags)
    → parse_flags z (flag on (bytes_of "--zygote") args) f
      ≡ parse_flags z args
          (record f { zygote = on || f.zygote; nice_name = if on then z else f.nice_name })
unfolding parse_flags
zygote-parse_flags z true args f = refl
zygote-parse_flags z false args f = refl

server-parse_flags :
    (z : Bytes) (on : Bool) (args : List Bytes) (f : Flags)
    → parse_flags z (flag on (bytes_of "--start-system-server") args) f
      ≡ parse_flags z args (record f { start_system_server = on || f.start_system_server })
unfolding parse_flags
server-parse_flags z true args f = refl
server-parse_flags z false args f = refl

application-parse_flags :
    (z : Bytes) (on : Bool) (args : List Bytes) (f : Flags)
    → parse_flags z (flag on (bytes_of "--application") args) f
      ≡ parse_flags z args (record f { application = on || f.application })
unfolding parse_flags
application-parse_flags z true args f = refl
application-parse_flags z false args f = refl

nice_name-parse_flags :
    (z : Bytes) (nice_name : Option Bytes) (args : List Bytes) (f : Flags)
    → parse_flags z (nice_args nice_name args) f
      ≡ parse_flags z args
          (record f { nice_name = elim nice_name [ none ↦ f.nice_name | some n ↦ n ] })
unfolding parse_flags
nice_name-parse_flags z none args f = refl
nice_name-parse_flags z (some n) args f = refl

-- Each way of writing the flags sets exactly them, names the class, and leaves its arguments as they are.
flag_args-parse_flags :
    (z : Bytes) (f : Flags) (nice_name : Option Bytes)
    → IsClassName f.class_name
    → parse_flags z (flag_args f nice_name (f.class_name ∷ f.rest)) no_flags ≡ flagged z f nice_name
unfolding flag_args
flag_args-parse_flags z f nice_name h =
    zygote-parse_flags z f.zygote _ no_flags
    ∙ server-parse_flags z f.start_system_server _ _
    ∙ application-parse_flags z f.application _ _
    ∙ nice_name-parse_flags z nice_name _ _
    ∙ class_name-parse_flags z f.class_name f.rest _ h
    ∙ ground arith

-- Options for the virtual machine that begin with a dash and are not `--`, then `--`, the parent
-- directory, the flags, a class that begins with no two dashes and its arguments are read back:
-- the same options, flags, class and arguments. The name of the process is the one given, else the
-- zygote's in zygote mode, else none.
pub parse_command_line-flag_args :
    (z : Bytes) (options : List Bytes) (parent_dir : Bytes) (f : Flags) (nice_name : Option Bytes)
    → IsOptions options
    → IsClassName f.class_name
    → parse_command_line z
        (options ++ (bytes_of "--" ∷ parent_dir ∷ flag_args f nice_name (f.class_name ∷ f.rest)))
      ≡ record { options = options; flags = flagged z f nice_name }
unfolding parse_command_line
parse_command_line-flag_args z options parent_dir f nice_name h g =
    rw (vm_options-append options (parent_dir ∷ flag_args f nice_name (f.class_name ∷ f.rest)) h)
      (rw (flag_args-parse_flags z f nice_name g))
